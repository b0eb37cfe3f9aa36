-- ===== src/Json/Completeness.antt =====
-- The encoder of Runtime/Bindings/rapidjson.hpp at a value that stands for a JSON value.
use evo_runtime.Common.{ℕ, zero, suc, ◌+◌, ◌≤◌, ◌<◌, ◌≡◌, refl, Bool, true, false, List, arith}
use evo_runtime.Common.Int.{ℤ, pos, negsuc}
use evo_runtime.Json.Values.{LuaValue, Lua, done, CustomizedEncoder, Key}
use evo_runtime.Json.Encoder.{
  too_deep, encode_string, encode_other, encode_number, limit, encode_table, encode_value,
}
use evo_runtime.Json.Meaning.{
  Label, Json, Members, larger, nesting, nesting_members, calls_of, member_calls, Describes,
  DescribesMembers,
}
use evo_runtime.Json.Loops.{write_all, below, encode_contents-eq}

pub too_deep_lem :
    (depth : ℕ) (max_depth : ℤ)
    → (limit max_depth < depth + 1)
    → too_deep (depth + 1) max_depth ≡ true
too_deep_lem depth (pos n) h = ground arith
too_deep_lem depth (negsuc n) h = refl

pub not_too_deep :
    (depth n : ℕ) (max_depth : ℤ)
    → depth + suc n ≤ limit max_depth
    → too_deep (depth + 1) max_depth ≡ false
not_too_deep depth n (pos m) h = ground arith
not_too_deep depth n (negsuc m) h = absurd (omega arith)

pub allowed :
    (depth : ℕ) (max_depth : ℤ)
    → too_deep (depth + 1) max_depth ≡ false
    → depth + 1 ≤ limit max_depth
allowed depth (pos m) h = ground arith
allowed depth (negsuc m) h = cc

pub larger_bounds : (a b : ℕ) → (a ≤ larger a b) × (b ≤ larger a b)
larger_bounds zero b = omega arith
larger_bounds (suc a) zero = omega arith
larger_bounds (suc a) (suc b) = omega (arith, larger_bounds a b)

pub larger_le : (a b c : ℕ) → a ≤ c → b ≤ c → larger a b ≤ c
larger_le zero b c h k = k
larger_le (suc a) zero c h k = h
larger_le (suc a) (suc b) zero h k = absurd (omega arith)
larger_le (suc a) (suc b) (suc c) h k = omega (arith, larger_le a b c (omega arith) (omega arith))

module _ (lua : Lua) (accepts : ℕ → Bool) (sort : List Key → List Key)
    (options : CustomizedEncoder) where
  abbrev Described : LuaValue → Json → Type 0
  Described = Describes lua accepts sort options

  module _ (room : (height : ℕ) → lua.checkstack height ≡ true) where
    mutual
      unfolding encode_value encode_table calls_of nesting write_all encode_number encode_other
          encode_string

      pub encode_value_of_Describes :
          {v : LuaValue} {j : Json} (d : Described v j) (levels depth height : ℕ)
          → depth + nesting j ≤ limit options.max_depth
          → limit options.max_depth < depth + levels
          → encode_value lua accepts sort options levels v depth height ≡ done (calls_of j)
      encode_value_of_Describes Describes.nil (suc levels) depth height h k = refl
      encode_value_of_Describes (Describes.null_pointer p) (suc levels) depth height h k = rw p
      encode_value_of_Describes Describes.boolean (suc levels) depth height h k = refl
      encode_value_of_Describes (Describes.integer e) (suc levels) depth height h k =
          rw (e, encode_number)
      encode_value_of_Describes (Describes.double e a) (suc levels) depth height h k =
          rw (e, encode_number) (rw a)
      encode_value_of_Describes (Describes.string e) (suc levels) depth height h k = rw e
      encode_value_of_Describes (Describes.pointer_text p m e r) (suc levels) depth height h k =
          rw p (rw (m, encode_other) (rw (e, encode_string) (rw r)))
      encode_value_of_Describes (Describes.object_text m e r) (suc levels) depth height h k =
          rw (m, encode_other) (rw (e, encode_string) (rw r))
      encode_value_of_Describes (Describes.array {t} {l} {ms} a e d) (suc levels) depth height h k =
          rw (
            not_too_deep depth _ options.max_depth h,
            room height,
            encode_contents-eq lua accepts sort options
                (λ v. encode_value lua accepts sort options levels v (depth + 1)) t height,
            ← e,
            write_all_of_Describes d levels (depth + 1) (height + below lua accepts sort options t)
                (omega arith) (omega arith),
            a,
          )
      encode_value_of_Describes (Describes.object {t} {l} {ms} a e d) (suc levels) depth height h
            k =
          rw (
            not_too_deep depth _ options.max_depth h,
            room height,
            encode_contents-eq lua accepts sort options
                (λ v. encode_value lua accepts sort options levels v (depth + 1)) t height,
            ← e,
            write_all_of_Describes d levels (depth + 1) (height + below lua accepts sort options t)
                (omega arith) (omega arith),
            a,
          )
      encode_value_of_Describes _ zero depth height h k = absurd (omega arith)

      write_all_of_Describes :
          {l : List (Label × LuaValue)} {ms : Members}
          (d : DescribesMembers lua accepts sort options l ms) (levels depth height : ℕ)
          → depth + nesting_members ms ≤ limit options.max_depth
          → limit options.max_depth < depth + levels
          → write_all (λ v. encode_value lua accepts sort options levels v depth height) l
            ≡ done (member_calls ms)
      write_all_of_Describes DescribesMembers.end levels depth height h k = refl
      write_all_of_Describes (DescribesMembers.member {j = j} {ms} d ds) levels depth height h k =
          rw (
            encode_value_of_Describes d levels depth height
                (omega (arith, larger_bounds (nesting j) (nesting_members ms))) k,
            write_all_of_Describes ds levels depth height
                (omega (arith, larger_bounds (nesting j) (nesting_members ms))) k,
          )
