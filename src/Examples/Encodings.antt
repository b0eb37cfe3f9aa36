-- ===== src/Examples/Encodings.antt =====
-- The theorems on the JSON encoder, at small tables and with insertion sort for `std::sort`.
use mathlib.Core.List.{Mem, Perm, Pairwise, mem-cons, not-mem-nil}
use mathlib.Core.List.Perm
use mathlib.Core.Logic.Or
use evo_runtime.Common.{
  ℕ, ◌*◌, ◌≤◌, ◌≤◌, ◌<◌, ◌≡◌, refl, ◌≢◌, ◌↔◌, Bool, true, false, some, none, List, [], ◌∷◌, arith,
  length, if◌then◌else◌, ◌==◌, Bool-cases, inl, inr,
}
use evo_runtime.Common.Bytes.{Bytes, codes, key_eq, c_string}
use evo_runtime.Json.Values.{
  LuaValue, absent, gives, Lua, Call, Error, done, raised, exhausted, ◌>>=◌, CustomizedEncoder, Key,
}
use evo_runtime.Json.Encoder.{
  Calls, limit, tolstring, collect_keys, taken_key, encode_value, encode_table, encode_contents,
  encode_sorted_object, encode_object, encode_pairs, in_size, encode_keys, encode_number,
}
use evo_runtime.Json.Custom.{
  Argument, customized_encoder, max_depth_default, Layout, layout, encode, json_encode_custom,
}
use evo_runtime.Json.Meaning.{Json, nesting, calls_of, Describes, contents, string_fields}
use evo_runtime.Json.Agreement.{json_encode_custom_iff}
use evo_runtime.Json.Levels.{json_encode_custom_ends}
use evo_runtime.Json.Nesting.{json_encode_custom_cyclic}
use evo_runtime.Json.Reading.{read, read-encode_value}
use evo_runtime.Json.Sorting.{
  bytes_less, key_less, NotLess, Sorts, is_plain, no_nul, json_encode_custom_sorted,
}

insert : Key → List Key → List Key
insert a [] = a ∷ []
insert a (b ∷ l) = if key_less b a then b ∷ insert a l else a ∷ b ∷ l

insertion_sort : List Key → List Key
insertion_sort [] = []
insertion_sort (a ∷ l) = insert a (insertion_sort l)

insert-perm : (a : Key) (l : List Key) → Perm (insert a l) (a ∷ l)
unfolding insert
insert-perm a [] = Perm.rfl
insert-perm a (b ∷ l) = elim (Bool-cases (key_less b a)) [
  | inl e ↦ rw e (Perm.trans (Perm.cons b (insert-perm a l)) (Perm.swap a b l))
  | inr e ↦ rw e (Perm.rfl)
]

bytes_less_trans :
    (x y z : Bytes) → bytes_less y x ≡ false → bytes_less z y ≡ false → bytes_less z x ≡ false
unfolding bytes_less
bytes_less_trans [] [] [] h k = refl
bytes_less_trans [] [] (c ∷ z) h k = refl
bytes_less_trans [] (b ∷ y) [] h k = refl
bytes_less_trans [] (b ∷ y) (c ∷ z) h k = refl
bytes_less_trans (a ∷ x) [] z h k = cc
bytes_less_trans (a ∷ x) (b ∷ y) [] h k = cc
bytes_less_trans (a ∷ x) (b ∷ y) (c ∷ z) h k = ground (arith, bytes_less_trans x y z)

bytes_less_asymm : (x y : Bytes) → bytes_less x y ≡ true → bytes_less y x ≡ false
unfolding bytes_less
bytes_less_asymm [] [] h = cc
bytes_less_asymm [] (b ∷ y) h = refl
bytes_less_asymm (a ∷ x) [] h = cc
bytes_less_asymm (a ∷ x) (b ∷ y) h = ground (arith, bytes_less_asymm x y)

NotLess-prop : (a b : Key) → IsProp (NotLess a b)
NotLess-prop a b = hlevel

insert-ordered : (a : Key) (l : List Key) → Pairwise NotLess l → Pairwise NotLess (insert a l)
unfolding insert key_less
insert-ordered a [] s = Pairwise.cons (λ k m. absurd (not-mem-nil m)) Pairwise.nil
insert-ordered a (b ∷ l) (Pairwise.cons h s) = elim (Bool-cases (key_less b a)) [
  | inl e ↦ rw e (
      Pairwise.cons
        (λ k m.
          Or.elim (NotLess-prop b k) (mem-cons.0 ((Perm.mem_iff (insert-perm a l)).0 m))
            (λ same. rw same (bytes_less_asymm (c_string b.key) (c_string a.key) e)) (h k))
        (insert-ordered a l s))
  | inr e ↦ rw e (
      Pairwise.cons
        (λ k m.
          Or.elim (NotLess-prop a k) (mem-cons.0 m) (λ same. rw same e)
            (λ m. bytes_less_trans (c_string a.key) (c_string b.key) (c_string k.key) e (h k m)))
        (Pairwise.cons h s))
]

insertion_sort-Sorts : Sorts insertion_sort
unfolding insertion_sort
insertion_sort-Sorts = record { same = sorted_perm; ordered = sorted_ordered }
  where
    sorted_perm : (l : List Key) → Perm (insertion_sort l) l
    sorted_perm [] = Perm.rfl
    sorted_perm (a ∷ l) =
        Perm.trans (insert-perm a (insertion_sort l)) (Perm.cons a (sorted_perm l))

    sorted_ordered : (l : List Key) → Pairwise NotLess (insertion_sort l)
    sorted_ordered [] = Pairwise.nil
    sorted_ordered (a ∷ l) = insert-ordered a (insertion_sort l) (sorted_ordered l)

-- Table 1 contains itself; 2 and 3 have the same fields in different orders, 3 with a key of
-- another type.
abbrev lua : Lua
lua = record {
  isinteger = λ n. none;
  number_text = λ n. codes "0";
  isnull = λ p. p == 0;
  isarray = λ t empty_table_as_array. false;
  rawlen = λ t. 0;
  rawgeti = λ t n. LuaValue.nil;
  next = λ t.
      if t == 1
      then (LuaValue.string (codes "self"), LuaValue.table 1) ∷ []
      else if t == 2
      then (LuaValue.string (codes "a"), LuaValue.number 7)
        ∷ (LuaValue.string (codes "b"), LuaValue.boolean true)
        ∷ []
      else (LuaValue.string (codes "b"), LuaValue.boolean true)
        ∷ (LuaValue.boolean true, LuaValue.nil)
        ∷ (LuaValue.string (codes "a"), LuaValue.number 7)
        ∷ [];
  gettable = λ t k. if key_eq k (codes "a") then LuaValue.number 7 else LuaValue.boolean true;
  callmeta = λ v. absent;
  tostring = λ v. none;
  checkstack = λ height. true;
}

abbrev accepts : ℕ → Bool
accepts n = true

-- The number of calls stands for the text.
abbrev render : Layout → Calls → Bytes
render form calls = length calls ∷ []

abbrev sorting : Argument
sorting =
    Argument.fields (λ name default. key_eq name (codes "sort_keys")) (λ name default. default)

abbrev sorting_options : CustomizedEncoder
sorting_options = record {
  pretty = false;
  prettier = false;
  sort_keys = true;
  empty_table_as_array = false;
  max_depth = max_depth_default;
}

sorting_given : customized_encoder sorting ≡ done sorting_options
unfolding customized_encoder key_eq
sorting_given = refl

abbrev default_options : CustomizedEncoder
default_options = record {
  pretty = false;
  prettier = false;
  sort_keys = false;
  empty_table_as_array = false;
  max_depth = max_depth_default;
}

default_given : customized_encoder Argument.none_or_nil ≡ done default_options
unfolding customized_encoder
default_given = refl

texts : (v w : LuaValue) → lua.callmeta v ≡ gives w → (s : Bytes) × (tolstring lua w ≡ some s)
texts v w h = cc

json_encode_custom_iff_example :
    (json_encode_custom lua accepts insertion_sort render (LuaValue.table 2) sorting 2
      ≡ done (6 ∷ []))
    ↔ ((j : Json) × Describes lua accepts insertion_sort sorting_options (LuaValue.table 2) j
        × (nesting j ≤ limit sorting_options.max_depth)
        × (6 ∷ [] ≡ render (layout sorting_options) (calls_of j)))
json_encode_custom_iff_example =
    json_encode_custom_iff lua accepts insertion_sort render sorting_options sorting sorting_given
      (λ height. refl) texts (LuaValue.table 2) 2 (6 ∷ [])

-- Six calls: the keys, their values and the braces.
sorted_object_test :
    json_encode_custom lua accepts insertion_sort render (LuaValue.table 3) sorting 2
    ≡ done (6 ∷ [])
unfolding json_encode_custom encode encode_value encode_table encode_contents encode_sorted_object
    encode_keys encode_number collect_keys insertion_sort insert key_less bytes_less c_string key_eq
    customized_encoder taken_key
sorted_object_test = refl

json_encode_custom_ends_example :
    (json_encode_custom lua accepts insertion_sort render (LuaValue.table 1) Argument.none_or_nil 1
      ≢ exhausted)
    × ((more : ℕ)
        → limit default_options.max_depth < more
        → json_encode_custom lua accepts insertion_sort render
            (LuaValue.table 1)
            Argument.none_or_nil
            1
          ≡ (encode_value lua accepts insertion_sort default_options more (LuaValue.table 1) 0 1
              >>= λ calls. done (render (layout default_options) calls)))
json_encode_custom_ends_example =
    json_encode_custom_ends lua accepts insertion_sort default_options render Argument.none_or_nil
      default_given (LuaValue.table 1) 1

json_encode_custom_cyclic_example :
    (e : Error) × (json_encode_custom lua accepts insertion_sort render
        (LuaValue.table 1)
        Argument.none_or_nil
        1
      ≡ raised e)
unfolding contents string_fields
json_encode_custom_cyclic_example =
    json_encode_custom_cyclic lua accepts insertion_sort default_options render Argument.none_or_nil
      default_given texts 0 (LuaValue.table 1) 1 (1, LuaValue.table 1, refl, inl refl, refl)

plain_prop : (k : Key) → IsProp (is_plain k ≡ true)
plain_prop k = hlevel

plain_keys : (k : Key) → Mem k (collect_keys (lua.next 2)) → is_plain k ≡ true
unfolding collect_keys is_plain no_nul
plain_keys k m =
    Or.elim (plain_prop k) (mem-cons.0 m) (λ e. rw e refl)
      (λ m. Or.elim (plain_prop k) (mem-cons.0 m) (λ e. rw e refl) (λ m. absurd (not-mem-nil m)))

same_keys : Perm (collect_keys (lua.next 2)) (collect_keys (lua.next 3))
unfolding collect_keys
same_keys = Perm.swap _ _ []

json_encode_custom_sorted_example :
    json_encode_custom lua accepts insertion_sort render (LuaValue.table 2) sorting 2
    ≡ json_encode_custom lua accepts insertion_sort render (LuaValue.table 3) sorting 2
json_encode_custom_sorted_example =
    json_encode_custom_sorted lua accepts insertion_sort sorting_options insertion_sort-Sorts refl 2
      3 refl refl same_keys (λ k. refl) plain_keys render sorting 2 sorting_given

abbrev table_calls : Calls
table_calls =
    Call.start_object
    ∷ Call.key (codes "a")
    ∷ Call.double 7
    ∷ Call.key (codes "b")
    ∷ Call.bool true
    ∷ Call.end_object
    ∷ []

table_encoded :
    encode_value lua accepts insertion_sort default_options 9 (LuaValue.table 2) 0 1
    ≡ done table_calls
unfolding encode_value encode_table encode_contents encode_object encode_pairs encode_number in_size
table_encoded = refl

read-encode_value_example :
    (j : Json) × Describes lua accepts insertion_sort default_options (LuaValue.table 2) j
    × ((f : ℕ) → 2 * length table_calls ≤ f → read f table_calls ≡ some (j, []))
read-encode_value_example =
    read-encode_value lua accepts insertion_sort default_options texts 9 (LuaValue.table 2) 0 1
      table_calls (omega arith) table_encoded
