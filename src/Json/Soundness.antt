-- ===== src/Json/Soundness.antt =====
-- What the encoder of Runtime/Bindings/rapidjson.hpp has written when it raises no error.
use evo_runtime.Common.{
  ℕ, zero, suc, ◌+◌, ◌-◌, ◌≤◌, ◌≡◌, refl, sym, ap, ◌∙◌, ◌⊎◌, Bool, true, false, some, List, [], ◌∷◌,
  arith, Bool-cases, Option-cases, inl, inr,
}
use evo_runtime.Common.Bytes.{Bytes}
use evo_runtime.Json.Values.{
  LuaValue, Meta, absent, gives, raises, Lua, Call, Outcome, done, >>=-eq-done, CustomizedEncoder,
  Key,
}
use evo_runtime.Json.Encoder.{
  Calls, in_size, tolstring, too_deep, encode_string, encode_other, encode_number, limit,
  encode_contents, encode_table, encode_value,
}
use evo_runtime.Json.Meaning.{
  Label, Json, Members, larger, nesting, nesting_members, calls_of, member_calls, is_array,
  contents, Describes, DescribesMembers,
}
use evo_runtime.Json.Loops.{write_all, bracketed, below, encode_contents-eq}
use evo_runtime.Json.Completeness.{allowed, larger_le}

larger_le_under : (d a b c : ℕ) → d + a ≤ c → d + b ≤ c → d + larger a b ≤ c
larger_le_under d a b c h k = omega (arith, larger_le a b (c - d) (omega arith) (omega arith))

done_inj : {a b : Calls} → done a ≡ done b → b ≡ a
done_inj h = cc

pub Meta-cases : (m : Meta) → (m ≡ absent) ⊎ ((m ≡ raises) ⊎ ((w : LuaValue) × (m ≡ gives w)))
Meta-cases absent = inl refl
Meta-cases raises = inr (inl refl)
Meta-cases (gives w) = inr (inr (w, refl))

module _ (lua : Lua) (v : LuaValue) (calls : Calls) where
  other_absent : lua.callmeta v ≡ absent → ¬ (encode_other lua v ≡ done calls)
  unfolding encode_other
  other_absent a e = cc (rw (a, encode_other) at e)

  other_raises : lua.callmeta v ≡ raises → ¬ (encode_other lua v ≡ done calls)
  unfolding encode_other
  other_raises a e = ground arith

  other_gives :
      (w : LuaValue) (s : Bytes)
      → lua.callmeta v ≡ gives w
      → tolstring lua w ≡ some s
      → encode_other lua v ≡ done calls
      → calls ≡ Call.string (in_size s) ∷ []
  unfolding encode_other encode_string
  other_gives w s a b e = ground arith

string_written :
    (lua : Lua) (s : Bytes) (calls : Calls)
    → done (encode_string lua (LuaValue.string s) ∷ []) ≡ done calls
    → calls ≡ Call.string (in_size s) ∷ []
unfolding encode_string
string_written lua s calls e = done_inj e

-- A table is entered where neither guard fires.
table_written :
    (lua : Lua) (accepts : ℕ → Bool) (sort : List Key → List Key) (options : CustomizedEncoder)
    (encode : LuaValue → ℕ → Outcome Calls) (t depth height : ℕ) (calls : Calls)
    → encode_table lua accepts sort options encode t depth height ≡ done calls
    → (too_deep depth options.max_depth ≡ false)
      × (encode_contents lua accepts sort options encode t height ≡ done calls)
unfolding encode_table
table_written lua accepts sort options encode t depth height calls e = ground arith

module _ (lua : Lua) (accepts : ℕ → Bool) (sort : List Key → List Key)
    (options : CustomizedEncoder) where
  -- The calls are those of a JSON value that the value stands for, with no more tables inside one
  -- another than the limit leaves.
  abbrev pub Written : LuaValue → ℕ → Calls → Type 0
  Written v depth calls =
      (j : Json) × Describes lua accepts sort options v j
      × (calls ≡ calls_of j)
      × (depth + nesting j ≤ limit options.max_depth)

  abbrev AllWritten : List (Label × LuaValue) → ℕ → Calls → Type 0
  AllWritten l depth calls =
      (ms : Members) × DescribesMembers lua accepts sort options l ms
      × (calls ≡ member_calls ms)
      × (depth + nesting_members ms ≤ limit options.max_depth)

  write_all-AllWritten :
      (encode : LuaValue → Outcome Calls) (depth : ℕ)
      → ((v : LuaValue) (calls : Calls) → encode v ≡ done calls → Written v depth calls)
      → depth ≤ limit options.max_depth
      → (l : List (Label × LuaValue)) (calls : Calls) → write_all encode l ≡ done calls
      → AllWritten l depth calls
  unfolding write_all calls_of nesting
  write_all-AllWritten encode depth ih h [] calls e =
      (Members.end, DescribesMembers.end, cc, omega arith)
  write_all-AllWritten encode depth ih h ((label, v) ∷ rest) calls e =
      let (first, p, q) = >>=-eq-done (encode v) _ e in
      let (more, p', q') = >>=-eq-done (write_all encode rest) _ q in
      let (j, d, same, small) = ih v first p in
      let (ms, ds, same', small') = write_all-AllWritten encode depth ih h rest more p' in
      (
        Members.member label j ms,
        DescribesMembers.member d ds,
        cc,
        larger_le_under depth (nesting j) (nesting_members ms) (limit options.max_depth) small
            small',
      )

  number-Written :
      (n depth : ℕ) (calls : Calls)
      → depth ≤ limit options.max_depth
      → encode_number lua accepts sort options n ≡ done calls
      → Written (LuaValue.number n) depth calls
  unfolding calls_of nesting encode_number
  number-Written n depth calls h e = elim (Option-cases (lua.isinteger n)) [
    | inr (z, a) ↦ (Json.integer z, Describes.integer a, ground arith, omega arith)
    | inl a ↦ elim (Bool-cases (accepts n)) [
      | inl b ↦ (Json.double n, Describes.double a b, ground arith, omega arith)
      | inr b ↦ absurd (ground arith)
    ]
  ]

  module _
      (texts : (v w : LuaValue)
        → lua.callmeta v ≡ gives w
        → (s : Bytes) × (tolstring lua w ≡ some s)) where
    encode_contents-Written :
        (encode : LuaValue → ℕ → Outcome Calls) (depth : ℕ)
        → ((v : LuaValue) (height : ℕ) (calls : Calls)
            → encode v height ≡ done calls
            → Written v (depth + 1) calls)
        → (t height : ℕ) (calls : Calls) → depth + 1 ≤ limit options.max_depth
        → encode_contents lua accepts sort options encode t height ≡ done calls
        → Written (LuaValue.table t) depth calls
    unfolding calls_of nesting
    encode_contents-Written encode depth ih t height calls small e =
        let inside = height + below lua accepts sort options t in
        let (inner, p, q) =
          >>=-eq-done (write_all (λ v. encode v inside) (contents lua accepts sort options t)) _
            (sym (encode_contents-eq lua accepts sort options encode t height) ∙ e) in
        let (ms, ds, same, few) =
          write_all-AllWritten (λ v. encode v inside) (depth + 1) (λ v. ih v inside) small
            (contents lua accepts sort options t) inner p in
        elim (Bool-cases (is_array lua accepts sort options t)) [
          | inl a ↦ (
            Json.array ms,
            Describes.array a refl ds,
            done_inj q ∙ ap (λ b. bracketed b inner) a ∙ ap (bracketed true) same,
            omega arith,
          )
          | inr a ↦ (
            Json.object ms,
            Describes.object a refl ds,
            done_inj q ∙ ap (λ b. bracketed b inner) a ∙ ap (bracketed false) same,
            omega arith,
          )
        ]

    encode_other-text :
        (v : LuaValue) (calls : Calls)
        → encode_other lua v ≡ done calls
        → (w : LuaValue) × (s : Bytes) × (lua.callmeta v ≡ gives w)
          × (tolstring lua w ≡ some s)
          × (calls ≡ Call.string (in_size s) ∷ [])
    encode_other-text v calls e = elim (Meta-cases (lua.callmeta v)) [
      | inl none_given ↦ absurd (other_absent lua v calls none_given e)
      | inr (inl failed) ↦ absurd (other_raises lua v calls failed e)
      | inr (inr (w, given)) ↦
          let (s, text) = texts v w given in
          (w, s, given, text, other_gives lua v calls w s given text e)
    ]

    pub encode_value-Written :
        (levels : ℕ) (v : LuaValue) (depth height : ℕ) (calls : Calls)
        → depth ≤ limit options.max_depth
        → encode_value lua accepts sort options levels v depth height ≡ done calls
        → Written v depth calls
    unfolding encode_value calls_of nesting
    encode_value-Written zero v depth height calls h e = cc
    encode_value-Written (suc levels) LuaValue.nil depth height calls h e =
        (Json.null, Describes.nil, done_inj e, omega arith)
    encode_value-Written (suc levels) (LuaValue.boolean b) depth height calls h e =
        (Json.boolean b, Describes.boolean, done_inj e, omega arith)
    encode_value-Written (suc levels) (LuaValue.number n) depth height calls h e =
        number-Written n depth calls h e
    encode_value-Written (suc levels) (LuaValue.string s) depth height calls h e =
        (Json.string (in_size s), Describes.string refl, string_written lua s calls e, omega arith)
    encode_value-Written (suc levels) (LuaValue.lightuserdata p) depth height calls h e =
        elim (Bool-cases (lua.isnull p)) [
          | inl a ↦ (Json.null, Describes.null_pointer a, ground arith, omega arith)
          | inr a ↦
              let (w, s, given, text, same) =
                encode_other-text (LuaValue.lightuserdata p) calls (ground arith) in
              (Json.string (in_size s), Describes.pointer_text a given text refl, same, omega arith)
        ]
    encode_value-Written (suc levels) (LuaValue.object o) depth height calls h e =
        let (w, s, given, text, same) = encode_other-text (LuaValue.object o) calls e in
        (Json.string (in_size s), Describes.object_text given text refl, same, omega arith)
    encode_value-Written (suc levels) (LuaValue.table t) depth height calls h e =
        let (deep, inside) =
          table_written lua accepts sort options
            (λ v. encode_value lua accepts sort options levels v (depth + 1)) t (depth + 1) height
            calls e in
        let small = allowed depth options.max_depth deep in
        encode_contents-Written (λ v. encode_value lua accepts sort options levels v (depth + 1))
          depth (λ v height calls. encode_value-Written levels v (depth + 1) height calls small) t
          height calls small inside
