-- ===== src/Json/Library.antt =====
-- `luaopen_rapidjson_modified` of Runtime/Bindings/rapidjson.hpp: the library of lua-rapidjson with
-- two of its functions replaced.
use evo_runtime.Common.{ℕ, ◌≡◌, refl, some, ◌==◌, if◌then◌else◌}
use evo_runtime.Common.Bytes.{Bytes, codes, key_eq}
use evo_runtime.Common.Map.{Map, find, assign, find-assign}
use evo_runtime.Json.Values.{Error, Outcome, done, raised}

-- A function of lua-rapidjson is a number.
pub data Function : Type 0 where
  json_encode_custom_function : Function
  json_get_version_string_function : Function
  original : ℕ → Function

-- `luaopen_rapidjson` leaves its table on the stack and returns the number of results.
unfoldable pub luaopen_rapidjson_modified : (success : ℕ) → Map Function → Outcome (Map Function)
luaopen_rapidjson_modified success library =
    if success == 1
    then done (
        assign (codes "version") json_get_version_string_function
          (assign (codes "encode") json_encode_custom_function library))
    else raised Error.not_opened

-- Where the library opens, `encode` and `version` are the runtime's, and every other name has what
-- it had.
pub luaopen_rapidjson_modified_lem :
    (library : Map Function) (name : Bytes)
    → (l : Map Function) × (luaopen_rapidjson_modified 1 library ≡ done l)
      × (find name l ≡ (
          if key_eq (codes "version") name
          then some json_get_version_string_function
          else if key_eq (codes "encode") name
          then some json_encode_custom_function
          else find name library))
unfolding luaopen_rapidjson_modified
luaopen_rapidjson_modified_lem library name = (
  _,
  refl,
  rw (
    find-assign (codes "version") name json_get_version_string_function
        (assign (codes "encode") json_encode_custom_function library),
    find-assign (codes "encode") name json_encode_custom_function library,
  ),
)
