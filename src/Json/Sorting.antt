-- ===== src/Json/Sorting.antt =====
-- Objects with sorted keys in Runtime/Bindings/rapidjson.hpp: `Key::operator<`, what `std::sort`
-- promises with it, and that the order of `lua_next` is forgotten.
use mathlib.Core.Path.{ap₂}
use mathlib.Core.Logic.Or
use mathlib.Core.List.{Mem, Perm, Pairwise, mem-cons_self, mem-cons_of_mem, mem-cons}
use mathlib.Core.List.Pairwise
use mathlib.Core.List.Perm
use evo_runtime.Common.{
  ℕ, zero, suc, ◌≡◌, refl, Bool, true, false, ◌&&◌, ◌||◌, List, [], ◌∷◌, arith, ltb, ◌==◌, length,
}
use evo_runtime.Common.Bytes.{Bytes, c_string}
use evo_runtime.Json.Values.{LuaValue, Lua, Outcome, done, CustomizedEncoder, Key}
use evo_runtime.Json.Encoder.{Calls, collect_keys, encode_table, encode_value}
use evo_runtime.Json.Custom.{Argument, customized_encoder, Layout, encode, json_encode_custom}
use evo_runtime.Json.Meaning.{sorted_fields, is_array, contents}
use evo_runtime.Json.Loops.{encode_contents-eq}

-- `strcmp(x, y) < 0` on the bytes before the first NUL.
unfoldable pub bytes_less : Bytes → Bytes → Bool
bytes_less [] [] = false
bytes_less [] (b ∷ y) = true
bytes_less (a ∷ x) [] = false
bytes_less (a ∷ x) (b ∷ y) = ltb a b || (a == b && bytes_less x y)

-- `Key::operator<`
unfoldable pub key_less : Key → Key → Bool
key_less a b = bytes_less (c_string a.key) (c_string b.key)

abbrev pub NotLess : Key → Key → Type 0
NotLess a b = key_less b a ≡ false

-- The result of `std::sort` has the same elements, and none is less than an earlier one.
pub record Sorts (sort : List Key → List Key) : Type 0 where
  pub same : (l : List Key) → Perm (sort l) l
  pub ordered : (l : List Key) → Pairwise NotLess (sort l)

-- A key without a NUL, with its whole length.
unfoldable pub no_nul : Bytes → Bool
no_nul [] = true
no_nul (zero ∷ x) = false
no_nul (suc a ∷ x) = no_nul x

unfoldable pub is_plain : Key → Bool
is_plain k = no_nul k.key && k.size == length k.key

c_string-no_nul : (x : Bytes) → no_nul x ≡ true → c_string x ≡ x
unfolding no_nul c_string
c_string-no_nul [] h = refl
c_string-no_nul (zero ∷ x) h = cc
c_string-no_nul (suc a ∷ x) h = ground (arith, c_string-no_nul x h)

bytes_less_antisymm : (x y : Bytes) → bytes_less x y ≡ false → bytes_less y x ≡ false → x ≡ y
unfolding bytes_less
bytes_less_antisymm [] [] h k = refl
bytes_less_antisymm [] (b ∷ y) h k = cc
bytes_less_antisymm (a ∷ x) [] h k = cc
bytes_less_antisymm (a ∷ x) (b ∷ y) h k = ground (arith, bytes_less_antisymm x y)

bytes_less_irrefl : (x : Bytes) → bytes_less x x ≡ false
unfolding bytes_less
bytes_less_irrefl [] = refl
bytes_less_irrefl (a ∷ x) = ground (arith, bytes_less_irrefl x)

NotLess-antisymm :
    (a b : Key) → is_plain a ≡ true → is_plain b ≡ true → NotLess a b → NotLess b a → a ≡ b
unfolding is_plain key_less
NotLess-antisymm a b p q h k =
    let same : c_string a.key ≡ c_string b.key = bytes_less_antisymm _ _ k h in
    ground (arith, c_string-no_nul a.key, c_string-no_nul b.key)

abbrev AllPlain : List Key → Type 0
AllPlain l = (k : Key) → Mem k l → is_plain k ≡ true

key_less_prop : (a b : Key) → IsProp (NotLess a b)
key_less_prop a b = hlevel

head-NotLess :
    {a b : Key} {l r : List Key} → Pairwise NotLess (a ∷ l) → Perm (b ∷ r) (a ∷ l) → NotLess a b
unfolding key_less
head-NotLess {a} {b} (Pairwise.cons h _) p =
    Or.elim (key_less_prop a b) (mem-cons.0 ((Perm.mem_iff p).0 mem-cons_self))
      (λ e. rw e (bytes_less_irrefl _)) (λ m. h b m)

ordered_unique :
    (l r : List Key) → AllPlain l → Pairwise NotLess l → Pairwise NotLess r → Perm l r → l ≡ r
ordered_unique [] r plain sl sr p = Perm.nil-eq p
ordered_unique (a ∷ l) [] plain sl sr p = Perm.eq-nil p
ordered_unique (a ∷ l) (b ∷ r) plain sl sr p =
    let heads : a ≡ b =
      NotLess-antisymm a b (plain a mem-cons_self)
        (plain b ((Perm.mem_iff (Perm.symm p)).0 mem-cons_self)) (head-NotLess sl (Perm.symm p))
        (head-NotLess sr p) in
    let tails = Perm.cons_inv (Perm.trans p (Perm.symm (Perm.cons' heads Perm.rfl))) in
    ap₂ ◌∷◌ heads (
      ordered_unique l r (λ k m. plain k (mem-cons_of_mem a m)) (Pairwise.of_cons sl)
        (Pairwise.of_cons sr) tails)

sort_forgets_order :
    (sort : List Key → List Key) (l r : List Key)
    → Sorts sort
    → AllPlain l
    → Perm l r
    → sort l ≡ sort r
sort_forgets_order sort l r s plain p =
    ordered_unique (sort l) (sort r) (λ k m. plain k ((Perm.mem_iff (s.same l)).0 m)) (s.ordered l)
      (s.ordered r) (Perm.trans (s.same l) (Perm.trans p (Perm.symm (s.same r))))

module _ (lua : Lua) (accepts : ℕ → Bool) (sort : List Key → List Key) (options : CustomizedEncoder)
    (s : Sorts sort) (sorted : options.sort_keys ≡ true) (t t' : ℕ)
    (object : is_array lua accepts sort options t ≡ false)
    (object' : is_array lua accepts sort options t' ≡ false)
    (same_keys : Perm (collect_keys (lua.next t)) (collect_keys (lua.next t')))
    (same_values : (k : Bytes) → lua.gettable t k ≡ lua.gettable t' k)
    (plain : AllPlain (collect_keys (lua.next t))) where
  sorted_fields-same : (keys : List Key) → sorted_fields lua t keys ≡ sorted_fields lua t' keys
  unfolding sorted_fields
  sorted_fields-same [] = refl
  sorted_fields-same (k ∷ rest) = rw (same_values _, sorted_fields-same rest)

  contents-same : contents lua accepts sort options t ≡ contents lua accepts sort options t'
  unfolding contents
  contents-same =
      rw (object, object', sorted, sort_forgets_order sort _ _ s plain same_keys)
        (sorted_fields-same _)

  encode_table-same :
      (encode : LuaValue → ℕ → Outcome Calls) (depth height : ℕ)
      → encode_table lua accepts sort options encode t depth height
        ≡ encode_table lua accepts sort options encode t' depth height
  unfolding encode_table
  encode_table-same encode depth height = rw (
    encode_contents-eq lua accepts sort options encode t height,
    encode_contents-eq lua accepts sort options encode t' height,
    object,
    object',
    contents-same,
  )

  -- With valid options that sort keys, objects that have the same string keys without NULs, at the
  -- same values, are encoded alike, in whatever order `lua_next` visits them and whatever keys of
  -- other types they have.
  pub json_encode_custom_sorted :
      (render : Layout → Calls → Bytes) (argument : Argument) (height : ℕ)
      → customized_encoder argument ≡ done options
      → json_encode_custom lua accepts sort render (LuaValue.table t) argument height
        ≡ json_encode_custom lua accepts sort render (LuaValue.table t') argument height
  unfolding json_encode_custom encode encode_value
  json_encode_custom_sorted render argument height given = rw (given, encode_table-same _ _ _)
