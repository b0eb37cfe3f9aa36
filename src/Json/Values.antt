-- ===== src/Json/Values.antt =====
-- What Runtime/Bindings/rapidjson.hpp reads and writes: the values of a Lua state, with the part of
-- Lua and of lua-rapidjson that the encoder asks, and the calls that it makes of rapidjson's
-- writer.
use evo_runtime.Common.{ℕ, Bool, Option, List, ◌≡◌, refl}
use evo_runtime.Common.Bytes.{Bytes}
use evo_runtime.Common.Int.{ℤ}

-- A number is the bit pattern of its double; tables and other objects are references.
pub data LuaValue : Type 0 where
  nil : LuaValue
  boolean : Bool → LuaValue
  number : ℕ → LuaValue
  string : Bytes → LuaValue
  lightuserdata : ℕ → LuaValue
  table : ℕ → LuaValue
  object : ℕ → LuaValue

-- `luaL_callmeta(L, idx, "__tostring")`
pub data Meta : Type 0 where
  absent : Meta
  gives : LuaValue → Meta
  raises : Meta

-- Lua and luax.hpp, values.hpp of lua-rapidjson. `next` has the pairs of a table in the order of
-- `lua_next`, `gettable` reads at a string, `tostring` is the global function followed by
-- `lua_tostring`, and `checkstack` tells whether four more values fit on a stack of that height.
pub record Lua : Type 0 where
  pub isinteger : ℕ → Option ℤ
  pub number_text : ℕ → Bytes
  pub isnull : ℕ → Bool
  pub isarray : ℕ → (empty_table_as_array : Bool) → Bool
  pub rawlen : ℕ → ℕ
  pub rawgeti : ℕ → ℕ → LuaValue
  pub next : ℕ → List (LuaValue × LuaValue)
  pub gettable : ℕ → Bytes → LuaValue
  pub callmeta : LuaValue → Meta
  pub tostring : LuaValue → Option Bytes
  pub checkstack : ℕ → Bool

-- The calls of `rapidjson::Writer`. `string_of_null` is `String` with a null pointer.
pub data Call : Type 0 where
  null : Call
  bool : Bool → Call
  int64 : ℤ → Call
  double : ℕ → Call
  string : Bytes → Call
  string_of_null : Call
  start_object end_object start_array end_array : Call
  key : Bytes → Call

pub data Error : Type 0 where
  double_value nested stack_overflow no_table raised_by_meta not_opened : Error
  cannot_encode : Bytes → Error

-- `exhausted` is no outcome of the source: the recursion was given too few levels.
pub data Outcome {ℓ} (A : Type ℓ) : Type ℓ where
  done : A → Outcome A
  raised : Error → Outcome A
  exhausted : Outcome A

infixl 5 ◌>>=◌
abbrev pub ◌>>=◌ {ℓ κ} : {A : Type ℓ} {B : Type κ} → Outcome A → (A → Outcome B) → Outcome B
done a >>= f = f a
raised e >>= f = raised e
exhausted >>= f = exhausted

pub >>=-eq-done {ℓ κ} :
    {A : Type ℓ} {B : Type κ} (m : Outcome A) (f : A → Outcome B) {b : B}
    → (m >>= f) ≡ done b
    → (a : A) × (m ≡ done a) × (f a ≡ done b)
>>=-eq-done (done a) f h = (a, refl, h)
>>=-eq-done (raised e) f h = cc
>>=-eq-done exhausted f h = cc

-- The options of an encoder, the fields of `CustomizedEncoder`.
pub record CustomizedEncoder : Type 0 where
  pub pretty : Bool
  pub prettier : Bool
  pub sort_keys : Bool
  pub empty_table_as_array : Bool
  pub max_depth : ℤ

-- The element of the vector that is sorted: a pointer to the whole key and its length.
pub record Key : Type 0 where
  pub key : Bytes
  pub size : ℕ
