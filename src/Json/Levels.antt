-- ===== src/Json/Levels.antt =====
-- The recursion of the encoder in Runtime/Bindings/rapidjson.hpp ends, also at a table that
-- contains itself, since the depth is compared with a limit.
use mathlib.Core.Path.{fun_ext}
use evo_runtime.Common.{
  ℕ, zero, suc, ◌+◌, ◌≤◌, ◌<◌, ◌≡◌, refl, ◌≢◌, Bool, false, List, [], ◌∷◌, arith, Bool-cases, inl,
  inr,
}
use evo_runtime.Common.Bytes.{Bytes}
use evo_runtime.Json.Values.{
  LuaValue, Lua, Outcome, done, raised, exhausted, ◌>>=◌, CustomizedEncoder, Key,
}
use evo_runtime.Json.Encoder.{
  Calls, too_deep, limit, encode_table, encode_value, encode_other, encode_number,
}
use evo_runtime.Json.Custom.{
  Argument, customized_encoder, Layout, layout, encode, json_encode_custom,
}
use evo_runtime.Json.Meaning.{Label, contents}
use evo_runtime.Json.Loops.{write_all, below, encode_contents-eq}
use evo_runtime.Json.Completeness.{allowed}

>>=-ne-exhausted {ℓ κ} :
    {A : Type ℓ} {B : Type κ} (m : Outcome A) (f : A → Outcome B)
    → m ≢ exhausted
    → ((a : A) → f a ≢ exhausted)
    → (m >>= f) ≢ exhausted
>>=-ne-exhausted (done a) f h k = k a
>>=-ne-exhausted (raised e) f h k = cc
>>=-ne-exhausted exhausted f h k = absurd (h refl)

write_all-ne-exhausted :
    (encode : LuaValue → Outcome Calls)
    → ((v : LuaValue) → encode v ≢ exhausted)
    → (l : List (Label × LuaValue)) → write_all encode l ≢ exhausted
unfolding write_all
write_all-ne-exhausted encode h [] = cc
write_all-ne-exhausted encode h ((label, v) ∷ rest) = >>=-ne-exhausted (encode v) _ (h v) (λ calls.
    >>=-ne-exhausted (write_all encode rest) _ (write_all-ne-exhausted encode h rest) (λ more. cc))

encode_other-ne-exhausted : (lua : Lua) (v : LuaValue) → encode_other lua v ≢ exhausted
unfolding encode_other
encode_other-ne-exhausted lua v = ground arith

module _ (lua : Lua) (accepts : ℕ → Bool) (sort : List Key → List Key)
    (options : CustomizedEncoder) where
  encode_table-ne-exhausted :
      (encode : LuaValue → ℕ → Outcome Calls) (t depth height : ℕ)
      → (too_deep depth options.max_depth ≡ false → (v : LuaValue) (h : ℕ) → encode v h ≢ exhausted)
      → encode_table lua accepts sort options encode t depth height ≢ exhausted
  unfolding encode_table
  encode_table-ne-exhausted encode t depth height ih =
      elim (Bool-cases (too_deep depth options.max_depth)) [
        | inl e ↦ rw e (cc)
        | inr e ↦ elim (Bool-cases (lua.checkstack height)) [
          | inr f ↦ rw (e, f) (cc)
          | inl f ↦
              rw (e, f, encode_contents-eq lua accepts sort options encode t height)
                (>>=-ne-exhausted _ _
                  (write_all-ne-exhausted
                    (λ v. encode v (height + below lua accepts sort options t))
                    (λ v. ih e v (height + below lua accepts sort options t))
                    (contents lua accepts sort options t))
                  (λ calls. cc))
        ]
      ]

  encode_value-ne-exhausted :
      (levels : ℕ) (v : LuaValue) (depth height : ℕ)
      → depth ≤ limit options.max_depth
      → limit options.max_depth < depth + levels
      → encode_value lua accepts sort options levels v depth height ≢ exhausted
  unfolding encode_value encode_number
  encode_value-ne-exhausted zero v depth height h k = absurd (omega arith)
  encode_value-ne-exhausted (suc levels) LuaValue.nil depth height h k = cc
  encode_value-ne-exhausted (suc levels) (LuaValue.boolean b) depth height h k = cc
  encode_value-ne-exhausted (suc levels) (LuaValue.number n) depth height h k = ground arith
  encode_value-ne-exhausted (suc levels) (LuaValue.string s) depth height h k = cc
  encode_value-ne-exhausted (suc levels) (LuaValue.lightuserdata p) depth height h k =
      ground (arith, encode_other-ne-exhausted lua (LuaValue.lightuserdata p))
  encode_value-ne-exhausted (suc levels) (LuaValue.object o) depth height h k =
      encode_other-ne-exhausted lua (LuaValue.object o)
  encode_value-ne-exhausted (suc levels) (LuaValue.table t) depth height h k =
      encode_table-ne-exhausted (λ v. encode_value lua accepts sort options levels v (depth + 1)) t
        (depth + 1) height
        (λ e v height.
          encode_value-ne-exhausted levels v (depth + 1) height (allowed depth options.max_depth e)
            (omega arith))

  encode_table-cong :
      (f g : LuaValue → ℕ → Outcome Calls) (t depth height : ℕ)
      → (too_deep depth options.max_depth ≡ false → f ≡ g)
      → encode_table lua accepts sort options f t depth height
        ≡ encode_table lua accepts sort options g t depth height
  unfolding encode_table
  encode_table-cong f g t depth height same = elim (Bool-cases (too_deep depth options.max_depth)) [
    | inl e ↦ rw e
    | inr e ↦ rw (same e)
  ]

  -- More levels than suffice make no difference.
  encode_value-levels :
      (levels more : ℕ) (v : LuaValue) (depth height : ℕ)
      → depth ≤ limit options.max_depth
      → limit options.max_depth < depth + levels
      → limit options.max_depth < depth + more
      → encode_value lua accepts sort options levels v depth height
        ≡ encode_value lua accepts sort options more v depth height
  unfolding encode_value
  encode_value-levels zero more v depth height h k k' = absurd (omega arith)
  encode_value-levels (suc levels) zero v depth height h k k' = absurd (omega arith)
  encode_value-levels (suc levels) (suc more) (LuaValue.table t) depth height h k k' =
      encode_table-cong _ _ t (depth + 1) height (λ e. fun_ext (λ v. fun_ext (λ height.
        encode_value-levels levels more v (depth + 1) height (allowed depth options.max_depth e)
          (omega arith) (omega arith))))
  encode_value-levels (suc levels) (suc more) LuaValue.nil depth height h k k' = refl
  encode_value-levels (suc levels) (suc more) (LuaValue.boolean b) depth height h k k' = refl
  encode_value-levels (suc levels) (suc more) (LuaValue.number n) depth height h k k' = refl
  encode_value-levels (suc levels) (suc more) (LuaValue.string s) depth height h k k' = refl
  encode_value-levels (suc levels) (suc more) (LuaValue.lightuserdata p) depth height h k k' = refl
  encode_value-levels (suc levels) (suc more) (LuaValue.object o) depth height h k k' = refl

  module _ (render : Layout → Calls → Bytes) (argument : Argument)
      (given : customized_encoder argument ≡ done options) where
    -- With valid options an encoding ends, whatever Lua answers and however tables refer to one
    -- another: it returns a text or raises an error before the levels of its recursion are
    -- exhausted, and more levels give the same.
    pub json_encode_custom_ends :
        (v : LuaValue) (height : ℕ)
        → (json_encode_custom lua accepts sort render v argument height ≢ exhausted)
          × ((more : ℕ)
              → limit options.max_depth < more
              → json_encode_custom lua accepts sort render v argument height ≡ (
                  encode_value lua accepts sort options more v 0 height >>= λ calls.
                  done (render (layout options) calls)))
    unfolding json_encode_custom encode
    json_encode_custom_ends v height = rw given (
      >>=-ne-exhausted _ _
          (encode_value-ne-exhausted (suc (limit options.max_depth)) v 0 height (omega arith)
            (omega arith))
          (λ calls. cc),
      λ more h. rw (
          encode_value-levels (suc (limit options.max_depth)) more v 0 height (omega arith)
            (omega arith) (omega arith)),
    )
