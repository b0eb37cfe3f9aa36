-- ===== src/Miniz/Values.antt =====
-- What the functions of lminiz.cpp return to Lua. Arguments come checked, as `luaL_check…` leaves
-- them, and an optional one is `none` where it is missing.
use evo_runtime.Common.{ℕ, ◌+◌, ◌-◌, ◌%◌, ◌^◌, Bool, Option, none, some, List}
use evo_runtime.Common.Bytes.{Bytes}
use evo_runtime.Common.Int.{ℤ, to_unsigned}

-- The texts that `lua_pushfstring` and `luaL_error` make, by what they say.
pub data Message : Type 0 where
  reader_failed : Bytes → Bytes → Message
  memory_reader_failed : Bytes → Message
  no_such_file : Bytes → Message
  invalid_index : ℕ → Message
  no_heap_writer copy_failed add_failed no_archive : Message
  level_out_of_range : Message
  no_stream : Option Bytes → Message
  size_out_of_range : Message

-- `text_of_null n` is `lua_pushlstring` of a null pointer and a length.
pub data LuaValue : Type 0 where
  nil : LuaValue
  integer : ℕ → LuaValue
  boolean : Bool → LuaValue
  text : Bytes → LuaValue
  text_of_null : ℕ → LuaValue
  message : Message → LuaValue
  userdata : LuaValue

pub data Returned : Type 0 where
  values : List LuaValue → Returned
  table : List (Bytes × LuaValue) → Returned
  raised : Message → Returned

-- `lua_pushstring`, which pushes nil for a null pointer.
abbrev pub pushed_string : Option Bytes → LuaValue
pushed_string none = LuaValue.nil
pushed_string (some s) = LuaValue.text s

-- `(mz_uint)luaL_checkinteger(L, n) - 1`
unfoldable pub file_index : ℤ → ℕ
file_index index = (to_unsigned 32 index + (2 ^ 32 - 1)) % 2 ^ 32

abbrev pub optional : Option ℤ → ℤ → ℤ
optional none default = default
optional (some given) default = given
