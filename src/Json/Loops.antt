-- ===== src/Json/Loops.antt =====
-- The three loops of the encoder in Runtime/Bindings/rapidjson.hpp as one, over the members of a
-- table.
use evo_runtime.Common.{
  ℕ, zero, suc, ◌+◌, ◌≡◌, refl, Bool, true, false, List, [], ◌∷◌, ◌++◌, if◌then◌else◌, Bool-cases,
  inl, inr,
}
use evo_runtime.Json.Values.{LuaValue, Lua, Call, Outcome, done, ◌>>=◌, CustomizedEncoder, Key}
use evo_runtime.Json.Encoder.{
  Calls, rounds, collect_keys, encode_pairs, encode_keys, encode_elements, encode_object,
  encode_sorted_object, encode_array, encode_contents,
}
use evo_runtime.Json.Meaning.{
  Label, label_calls, elements, sorted_fields, string_fields, is_array, contents,
}

-- All loops write the members of one list.
unfoldable pub write_all : (LuaValue → Outcome Calls) → List (Label × LuaValue) → Outcome Calls
write_all encode [] = done []
write_all encode ((label, v) ∷ rest) = do
  calls ← encode v
  more ← write_all encode rest
  done (label_calls label ++ (calls ++ more))

module _ (lua : Lua) (encode : LuaValue → ℕ → Outcome Calls) (height : ℕ) where
  encode_pairs-eq-write_all :
      (l : List (LuaValue × LuaValue))
      → encode_pairs lua encode l height ≡ write_all (λ v. encode v (height + 2)) (string_fields l)
  unfolding encode_pairs write_all string_fields
  encode_pairs-eq-write_all [] = refl
  encode_pairs-eq-write_all ((LuaValue.string k, v) ∷ rest) = rw (encode_pairs-eq-write_all rest)
  encode_pairs-eq-write_all ((LuaValue.nil, v) ∷ rest) = encode_pairs-eq-write_all rest
  encode_pairs-eq-write_all ((LuaValue.boolean b, v) ∷ rest) = encode_pairs-eq-write_all rest
  encode_pairs-eq-write_all ((LuaValue.number n, v) ∷ rest) = encode_pairs-eq-write_all rest
  encode_pairs-eq-write_all ((LuaValue.lightuserdata p, v) ∷ rest) = encode_pairs-eq-write_all rest
  encode_pairs-eq-write_all ((LuaValue.table t, v) ∷ rest) = encode_pairs-eq-write_all rest
  encode_pairs-eq-write_all ((LuaValue.object o, v) ∷ rest) = encode_pairs-eq-write_all rest

  encode_keys-eq-write_all :
      (t : ℕ) (keys : List Key)
      → encode_keys lua encode t keys height
        ≡ write_all (λ v. encode v (height + 1)) (sorted_fields lua t keys)
  unfolding encode_keys write_all sorted_fields
  encode_keys-eq-write_all t [] = refl
  encode_keys-eq-write_all t (k ∷ rest) = rw (encode_keys-eq-write_all t rest)

  encode_elements-eq-write_all :
      (t n left : ℕ)
      → encode_elements lua encode t n left height
        ≡ write_all (λ v. encode v (height + 1)) (elements lua t n left)
  unfolding encode_elements write_all elements
  encode_elements-eq-write_all t n zero = refl
  encode_elements-eq-write_all t n (suc left) = rw (encode_elements-eq-write_all t (n + 1) left)

-- The calls around the members.
abbrev pub bracketed : Bool → Calls → Calls
bracketed true calls = Call.start_array ∷ calls ++ Call.end_array ∷ []
bracketed false calls = Call.start_object ∷ calls ++ Call.end_object ∷ []

module _ (lua : Lua) (accepts : ℕ → Bool) (sort : List Key → List Key)
    (options : CustomizedEncoder) where
  -- How many values lie on the stack below that of a member.
  abbrev pub below : ℕ → ℕ
  below t = if is_array lua accepts sort options t then 1 else if options.sort_keys then 1 else 2

  pub encode_contents-eq :
      (encode : LuaValue → ℕ → Outcome Calls) (t height : ℕ)
      → encode_contents lua accepts sort options encode t height ≡ (
          write_all (λ v. encode v (height + below t)) (contents lua accepts sort options t)
          >>= λ calls. done (bracketed (is_array lua accepts sort options t) calls))
  unfolding encode_contents contents encode_array encode_object encode_sorted_object
  encode_contents-eq encode t height =
      elim (Bool-cases (lua.isarray t options.empty_table_as_array)) [
        | inl e ↦ rw (e, encode_elements-eq-write_all lua encode height t 1 (rounds (lua.rawlen t)))
        | inr e ↦ elim (Bool-cases options.sort_keys) [
          | inl s ↦ rw (
            e,
            s,
            encode_keys-eq-write_all lua encode height t (sort (collect_keys (lua.next t))),
          )
          | inr s ↦ rw (e, s, encode_pairs-eq-write_all lua encode height (lua.next t))
        ]
      ]
