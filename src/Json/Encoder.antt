-- ===== src/Json/Encoder.antt =====
-- `CustomizedEncoder` of Runtime/Bindings/rapidjson.hpp. Instead of an index on the stack a
-- function has the value there, and `height`, the number of values on the stack. A function returns
-- the calls that it makes of the writer.
use evo_runtime.Common.{
  ℕ, zero, suc, ◌+◌, ◌%◌, ◌^◌, Bool, true, Option, none, some, List, [], ◌∷◌, ◌++◌, if◌then◌else◌,
  length, take, ltb,
}
use evo_runtime.Common.Bytes.{Bytes, codes}
use evo_runtime.Common.Int.{ℤ, pos, negsuc}
use evo_runtime.Json.Values.{
  LuaValue, absent, gives, raises, Lua, Call, Error, Outcome, done, raised, exhausted, ◌>>=◌,
  CustomizedEncoder, Key,
}

abbrev pub Calls : Type 0
Calls = List Call

-- `static_cast<SizeType>(len)`: rapidjson's sizes have 32 bits.
abbrev pub size_type : ℕ → ℕ
size_type n = n % 2 ^ 32

-- A text with its length as a size.
unfoldable pub in_size : Bytes → Bytes
in_size s = take (size_type (length s)) s

-- `static_cast<int>(len)` as the bound of a loop that counts up from one.
abbrev pub rounds : ℕ → ℕ
rounds n = if ltb (n % 2 ^ 32) (2 ^ 31) then n % 2 ^ 32 else 0

-- `depth > max_depth`
abbrev pub too_deep : ℕ → ℤ → Bool
too_deep depth (pos max_depth) = ltb max_depth depth
too_deep depth (negsuc n) = true

-- How deep tables may stand inside one another.
abbrev pub limit : ℤ → ℕ
limit (pos n) = n
limit (negsuc n) = 0

unfoldable pub taken_key : Key → Bytes
taken_key k = take k.size k.key

-- `lua_next` in a loop that keeps the keys that are strings.
unfoldable pub collect_keys : List (LuaValue × LuaValue) → List Key
collect_keys [] = []
collect_keys ((LuaValue.string k, v) ∷ rest) =
    record { key = k; size = size_type (length k) } ∷ collect_keys rest
collect_keys ((_, v) ∷ rest) = collect_keys rest

abbrev pub encode_boolean : Bool → Call
encode_boolean b = Call.bool b

module _ (lua : Lua) where
  -- `lua_tolstring`
  abbrev pub tolstring : LuaValue → Option Bytes
  tolstring (LuaValue.string s) = some s
  tolstring (LuaValue.number n) = some (lua.number_text n)
  tolstring _ = none

  unfoldable pub encode_string : LuaValue → Call
  encode_string v = elim (tolstring v) [
    | some s ↦ Call.string (in_size s)
    | none ↦ Call.string_of_null
  ]

  -- The `default` of the switch in `encodeValue`.
  unfoldable pub encode_other : LuaValue → Outcome Calls
  encode_other v = elim (lua.callmeta v) [
    | absent ↦
        raised
          (Error.cannot_encode (elim (lua.tostring v) [ some text ↦ text | none ↦ codes "nil" ]))
    | gives w ↦ done (encode_string w ∷ [])
    | raises ↦ raised Error.raised_by_meta
  ]

  -- The loops take `encodeValue` with the depth given, as a function of the value and the height.
  unfoldable pub encode_pairs :
      (LuaValue → ℕ → Outcome Calls) → List (LuaValue × LuaValue) → ℕ → Outcome Calls
  encode_pairs encode [] height = done []
  encode_pairs encode ((LuaValue.string k, v) ∷ rest) height = do
    calls ← encode v (height + 2)
    more ← encode_pairs encode rest height
    done (Call.key (in_size k) ∷ calls ++ more)
  encode_pairs encode ((_, v) ∷ rest) height = encode_pairs encode rest height

  unfoldable pub encode_keys : (LuaValue → ℕ → Outcome Calls) → ℕ → List Key → ℕ → Outcome Calls
  encode_keys encode t [] height = done []
  encode_keys encode t (k ∷ rest) height = do
    calls ← encode (lua.gettable t (taken_key k)) (height + 1)
    more ← encode_keys encode t rest height
    done (Call.key (taken_key k) ∷ calls ++ more)

  unfoldable pub encode_elements :
      (LuaValue → ℕ → Outcome Calls) → ℕ → (n left : ℕ) → ℕ → Outcome Calls
  encode_elements encode t n zero height = done []
  encode_elements encode t n (suc left) height = do
    calls ← encode (lua.rawgeti t n) (height + 1)
    more ← encode_elements encode t (n + 1) left height
    done (calls ++ more)

  unfoldable pub encode_object : (LuaValue → ℕ → Outcome Calls) → ℕ → ℕ → Outcome Calls
  encode_object encode t height = do
    calls ← encode_pairs encode (lua.next t) height
    done (Call.start_object ∷ calls ++ Call.end_object ∷ [])

  unfoldable pub encode_sorted_object :
      (List Key → List Key) → (LuaValue → ℕ → Outcome Calls) → ℕ → List Key → ℕ → Outcome Calls
  encode_sorted_object sort encode t keys height = do
    calls ← encode_keys encode t (sort keys) height
    done (Call.start_object ∷ calls ++ Call.end_object ∷ [])

  unfoldable pub encode_array : (LuaValue → ℕ → Outcome Calls) → ℕ → ℕ → Outcome Calls
  encode_array encode t height = do
    calls ← encode_elements encode t 1 (rounds (lua.rawlen t)) height
    done (Call.start_array ∷ calls ++ Call.end_array ∷ [])

-- What else the encoder takes from elsewhere: whether `Writer::Double` accepts a number, and
-- `std::sort` with the order of `Key`.
module _ (lua : Lua) (accepts : ℕ → Bool) (sort : List Key → List Key)
    (options : CustomizedEncoder) where
  unfoldable pub encode_number : ℕ → Outcome Calls
  encode_number n = elim (lua.isinteger n) [
    | some integer ↦ done (Call.int64 integer ∷ [])
    | none ↦ if accepts n then done (Call.double n ∷ []) else raised Error.double_value
  ]

  unfoldable pub encode_contents : (LuaValue → ℕ → Outcome Calls) → (t height : ℕ) → Outcome Calls
  encode_contents encode t height =
      if lua.isarray t options.empty_table_as_array
      then encode_array lua encode t height
      else if options.sort_keys
      then encode_sorted_object lua sort encode t (collect_keys (lua.next t)) height
      else encode_object lua encode t height

  unfoldable pub encode_table :
      (LuaValue → ℕ → Outcome Calls) → (t depth height : ℕ) → Outcome Calls
  encode_table encode t depth height =
      if too_deep depth options.max_depth
      then raised Error.nested
      else if lua.checkstack height
      then encode_contents encode t height
      else raised Error.stack_overflow

  -- The first argument bounds the levels of the recursion.
  unfoldable pub encode_value : (levels : ℕ) → (v : LuaValue) → (depth height : ℕ) → Outcome Calls
  encode_value zero v depth height = exhausted
  encode_value (suc levels) LuaValue.nil depth height = done (Call.null ∷ [])
  encode_value (suc levels) (LuaValue.boolean b) depth height = done (encode_boolean b ∷ [])
  encode_value (suc levels) (LuaValue.number n) depth height = encode_number n
  encode_value (suc levels) (LuaValue.string s) depth height =
      done (encode_string lua (LuaValue.string s) ∷ [])
  encode_value (suc levels) (LuaValue.lightuserdata p) depth height =
      if lua.isnull p then done (Call.null ∷ []) else encode_other lua (LuaValue.lightuserdata p)
  encode_value (suc levels) (LuaValue.table t) depth height =
      encode_table (λ v. encode_value levels v (depth + 1)) t (depth + 1) height
  encode_value (suc levels) (LuaValue.object o) depth height = encode_other lua (LuaValue.object o)
