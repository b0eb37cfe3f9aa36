-- ===== src/Json/Custom.antt =====
-- `json_encode_custom` of Runtime/Bindings/rapidjson.hpp: the constructor of `CustomizedEncoder`,
-- which reads the options, and its `encode`.
use evo_runtime.Common.{ℕ, suc, Bool, false, List, if◌then◌else◌}
use evo_runtime.Common.Bytes.{Bytes, codes}
use evo_runtime.Common.Int.{ℤ, pos}
use evo_runtime.Json.Values.{
  LuaValue, Lua, Error, Outcome, done, raised, ◌>>=◌, CustomizedEncoder, Key,
}
use evo_runtime.Json.Encoder.{Calls, limit, encode_value}

-- The second argument of `encode` in Lua; an options table is what `luax::optboolfield` and
-- `luax::optintfield` read of it.
pub data Argument : Type 0 where
  none_or_nil : Argument
  no_table : Argument
  fields : (optboolfield : Bytes → Bool → Bool) (optintfield : Bytes → ℤ → ℤ) → Argument

abbrev pub max_depth_default : ℤ
max_depth_default = pos 128

unfoldable pub customized_encoder : Argument → Outcome CustomizedEncoder
customized_encoder Argument.none_or_nil = done (record {
  pretty = false;
  prettier = false;
  sort_keys = false;
  empty_table_as_array = false;
  max_depth = max_depth_default;
})
customized_encoder Argument.no_table = raised Error.no_table
customized_encoder (Argument.fields optboolfield optintfield) = done (record {
  pretty = optboolfield (codes "pretty") false;
  prettier = optboolfield (codes "prettier") false;
  sort_keys = optboolfield (codes "sort_keys") false;
  empty_table_as_array = optboolfield (codes "empty_table_as_array") false;
  max_depth = optintfield (codes "max_depth") max_depth_default;
})

-- The writers: `Writer`, `PrettyWriter` and `PrettyWriter` with `SetIndent('\t', 1)`.
pub data Layout : Type 0 where
  compact : Layout
  spaces : Layout
  tabs : Layout

unfoldable pub layout : CustomizedEncoder → Layout
layout options =
    if options.prettier
    then Layout.tabs
    else if options.pretty
    then Layout.spaces
    else Layout.compact

-- `render` is the text that a writer has made of its calls.
module _ (lua : Lua) (accepts : ℕ → Bool) (sort : List Key → List Key)
    (render : Layout → Calls → Bytes) where
  unfoldable pub encode : CustomizedEncoder → LuaValue → (height : ℕ) → Outcome Bytes
  encode options v height = do
    calls ← encode_value lua accepts sort options (suc (limit options.max_depth)) v 0 height
    done (render (layout options) calls)

  unfoldable pub json_encode_custom : LuaValue → Argument → (height : ℕ) → Outcome Bytes
  json_encode_custom v argument height = do
    options ← customized_encoder argument
    encode options v height
