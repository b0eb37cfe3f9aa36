-- ===== src/Json/Agreement.antt =====
-- What `json_encode_custom` of Runtime/Bindings/rapidjson.hpp returns, and that it ends.
use evo_runtime.Common.{ℕ, suc, ◌≤◌, ◌≡◌, ◌↔◌, Bool, true, some, List, arith}
use evo_runtime.Common.Bytes.{Bytes}
use evo_runtime.Json.Values.{LuaValue, gives, Lua, done, >>=-eq-done, CustomizedEncoder, Key}
use evo_runtime.Json.Encoder.{Calls, tolstring, limit}
use evo_runtime.Json.Custom.{
  Argument, customized_encoder, Layout, layout, encode, json_encode_custom,
}
use evo_runtime.Json.Meaning.{Json, nesting, calls_of, Describes}
use evo_runtime.Json.Completeness.{encode_value_of_Describes}
use evo_runtime.Json.Soundness.{encode_value-Written}

module _ (lua : Lua) (accepts : ℕ → Bool) (sort : List Key → List Key)
    (render : Layout → Calls → Bytes) (options : CustomizedEncoder) (argument : Argument)
    (given : customized_encoder argument ≡ done options)
    (room : (height : ℕ) → lua.checkstack height ≡ true)
    (texts : (v w : LuaValue)
      → lua.callmeta v ≡ gives w
      → (s : Bytes) × (tolstring lua w ≡ some s)) where
  -- With valid options, where the stack has room and metamethods give texts, a value is encoded
  -- exactly if it stands for a JSON value with no more tables inside one another than `max_depth`,
  -- and the result is the text of that value.
  pub json_encode_custom_iff :
      (v : LuaValue) (height : ℕ) (text : Bytes)
      → (json_encode_custom lua accepts sort render v argument height ≡ done text) ↔ (
          (j : Json) × Describes lua accepts sort options v j
          × (nesting j ≤ limit options.max_depth)
          × (text ≡ render (layout options) (calls_of j)))
  unfolding json_encode_custom encode
  json_encode_custom_iff v height text = (
    λ e.
        let (calls, p, q) = >>=-eq-done _ _ (rw given at e) in
        let (j, d, same, small) =
          encode_value-Written lua accepts sort options texts (suc (limit options.max_depth)) v 0
            height calls (omega arith) p in
        (j, d, omega arith, ground (arith, same)),
    λ (j, d, small, same). rw (
      given,
      encode_value_of_Describes lua accepts sort options room d (suc (limit options.max_depth)) 0
          height (omega arith) (omega arith),
      same,
    ),
  )
