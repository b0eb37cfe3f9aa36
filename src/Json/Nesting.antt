-- ===== src/Json/Nesting.antt =====
-- Tables inside one another, and the encoder of Runtime/Bindings/rapidjson.hpp.
use mathlib.Core.Path.{subst}
use evo_runtime.Common.{
  ℕ, zero, suc, ◌+◌, ◌≤◌, ◌<◌, ◌≡◌, refl, ◌≢◌, ◌⊎◌, Bool, some, List, [], ◌∷◌, arith, inl, inr,
}
use evo_runtime.Common.Bytes.{Bytes}
use evo_runtime.Json.Values.{
  LuaValue, gives, Lua, Error, Outcome, done, raised, exhausted, >>=-eq-done, CustomizedEncoder,
  Key,
}
use evo_runtime.Json.Encoder.{Calls, tolstring, limit}
use evo_runtime.Json.Custom.{Argument, customized_encoder, Layout, encode, json_encode_custom}
use evo_runtime.Json.Meaning.{
  Label, Json, Members, nesting, nesting_members, contents, Describes, DescribesMembers,
}
use evo_runtime.Json.Completeness.{larger_bounds}
use evo_runtime.Json.Soundness.{encode_value-Written}
use evo_runtime.Json.Levels.{json_encode_custom_ends}

abbrev pub Holds : List (Label × LuaValue) → LuaValue → Type 0
Holds [] w = ⊥
Holds ((label, v) ∷ rest) w = (v ≡ w) ⊎ Holds rest w

Outcome-cases {ℓ} :
    {A : Type ℓ} (m : Outcome A)
    → m ≢ exhausted
    → ((a : A) → m ≢ done a)
    → (e : Error) × (m ≡ raised e)
Outcome-cases (done a) h k = absurd (k a refl)
Outcome-cases (raised e) h k = (e, refl)
Outcome-cases exhausted h k = absurd (h refl)

module _ (lua : Lua) (accepts : ℕ → Bool) (sort : List Key → List Key)
    (options : CustomizedEncoder) where
  -- A way of n steps, each from a table to one of the values that are encoded with it.
  abbrev pub Leads : ℕ → LuaValue → LuaValue → Type 0
  Leads zero v w = v ≡ w
  Leads (suc n) v w =
      (t : ℕ) × (u : LuaValue) × (v ≡ LuaValue.table t)
      × Holds (contents lua accepts sort options t) u
      × Leads n u w

  Leads-append :
      (a b : ℕ) (u v w : LuaValue) → Leads a u v → Leads b v w → (n : ℕ) × (n ≡ a + b) × Leads n u w
  Leads-append zero b u v w p q = (b, omega arith, rw p q)
  Leads-append (suc a) b u v w (t, x, e, h, p) q =
      let (n, same, way) = Leads-append a b x v w p q in (suc n, omega arith, (t, x, e, h, way))

  Leads-round : (k n : ℕ) (v : LuaValue) → Leads (suc k) v v → (m : ℕ) × (n ≤ m) × Leads m v v
  Leads-round k zero v p = (0, omega arith, refl)
  Leads-round k (suc n) v p =
      let (m, more, way) = Leads-round k n v p in
      let (l, same, longer) = Leads-append (suc k) m v v v p way in (l, omega arith, longer)

  held_member :
      {l : List (Label × LuaValue)} {ms : Members} {w : LuaValue}
      → DescribesMembers lua accepts sort options l ms
      → Holds l w
      → (j : Json) × Describes lua accepts sort options w j × (nesting j ≤ nesting_members ms)
  unfolding nesting
  held_member DescribesMembers.end h = elim h [ ]
  held_member (DescribesMembers.member {j = j} {ms} d ds) (inl e) =
      (j, rw (← e) d, omega (arith, larger_bounds (nesting j) (nesting_members ms)))
  held_member (DescribesMembers.member {j = j} {ms} d ds) (inr h) =
      let (i, d', small) = held_member ds h in
      (i, d', omega (arith, larger_bounds (nesting j) (nesting_members ms)))

  table_members :
      {v : LuaValue} {j : Json} {t : ℕ}
      → Describes lua accepts sort options v j
      → v ≡ LuaValue.table t
      → (ms : Members) × DescribesMembers lua accepts sort options
          (contents lua accepts sort options t)
          ms
        × (nesting j ≡ suc (nesting_members ms))
  unfolding nesting
  table_members {t = t} (Describes.array {t = s} {ms = ms} a e d) same =
      let st : s ≡ t = cc in
      (
        ms,
        subst
            (λ x.
              DescribesMembers lua accepts sort options (contents lua accepts sort options x) ms)
            st (rw (← e) d),
        refl,
      )
  table_members {t = t} (Describes.object {t = s} {ms = ms} a e d) same =
      let st : s ≡ t = cc in
      (
        ms,
        subst
            (λ x.
              DescribesMembers lua accepts sort options (contents lua accepts sort options x) ms)
            st (rw (← e) d),
        refl,
      )
  table_members Describes.nil same = cc
  table_members (Describes.null_pointer p) same = cc
  table_members Describes.boolean same = cc
  table_members (Describes.integer p) same = cc
  table_members (Describes.double p q) same = cc
  table_members (Describes.string e) same = cc
  table_members (Describes.pointer_text p q r s) same = cc
  table_members (Describes.object_text q r s) same = cc

  Leads-le-nesting :
      (n : ℕ) (v w : LuaValue) (j : Json)
      → Describes lua accepts sort options v j
      → Leads n v w
      → n ≤ nesting j
  Leads-le-nesting zero v w j d p = omega arith
  Leads-le-nesting (suc n) v w j d (t, u, e, h, p) =
      let (ms, ds, size) = table_members d e in
      let (i, d', small) = held_member ds h in
      let deep : n ≤ nesting i = Leads-le-nesting n u w i d' p in omega arith

  module _ (render : Layout → Calls → Bytes) (argument : Argument)
      (given : customized_encoder argument ≡ done options)
      (texts : (v w : LuaValue)
        → lua.callmeta v ≡ gives w
        → (s : Bytes) × (tolstring lua w ≡ some s)) where
    -- Where metamethods give texts, a value from which more tables are entered, one from the other,
    -- than `max_depth` allows, raises an error.
    pub json_encode_custom-Leads :
        (n : ℕ) (v w : LuaValue) (height : ℕ)
        → Leads n v w
        → limit options.max_depth < n
        → (e : Error) × (json_encode_custom lua accepts sort render v argument height ≡ raised e)
    unfolding json_encode_custom encode
    json_encode_custom-Leads n v w height p h =
        Outcome-cases _
          (json_encode_custom_ends lua accepts sort options render argument given v height).0
          (λ text e.
            let (calls, q, q') = >>=-eq-done _ _ (rw given at e) in
            let (j, d, same, small) =
              encode_value-Written lua accepts sort options texts (suc (limit options.max_depth)) v
                0 height calls (omega arith) q in
            let deep : n ≤ nesting j = Leads-le-nesting n v w j d p in omega arith)

    -- With valid options, where metamethods give texts, a value that is reached from itself through
    -- one or more tables raises an error, where each step goes from a table to a value that is
    -- encoded with it: an element up to the length of an array, or the value of a key of an object
    -- that is a string. A table under another key of itself is not such a value.
    pub json_encode_custom_cyclic :
        (k : ℕ) (v : LuaValue) (height : ℕ)
        → Leads (suc k) v v
        → (e : Error) × (json_encode_custom lua accepts sort render v argument height ≡ raised e)
    json_encode_custom_cyclic k v height p =
        let (m, more, way) = Leads-round k (suc (limit options.max_depth)) v p in
        json_encode_custom-Leads m v v height way (omega arith)
