-- ===== src/Json/Reading.antt =====
-- A reader of the calls that the encoder of Runtime/Bindings/rapidjson.hpp makes of its writer:
-- what has been written can be read in one way only.
use evo_runtime.Common.{
  ℕ, zero, suc, ◌+◌, ◌*◌, ◌≤◌, ◌<◌, ◌≡◌, refl, sym, ap, ◌∙◌, Bool, true, false, Option, none, some,
  List, [], ◌∷◌, ◌++◌, if◌then◌else◌, arith, length, length-append, append-nil, append_assoc,
}
use evo_runtime.Common.Bytes.{Bytes, ◌>>=◌}
use evo_runtime.Json.Values.{LuaValue, gives, Lua, Call, done, CustomizedEncoder, Key}
use evo_runtime.Json.Encoder.{Calls, tolstring, limit, encode_value}
use evo_runtime.Json.Meaning.{Json, Members, calls_of, member_calls, Describes}
use evo_runtime.Json.Soundness.{encode_value-Written}

-- The fuel falls with each call that is read. `in_array` tells which call closes the members.
unfoldable mutual
  pub read : ℕ → Calls → Option (Json × Calls)
  read zero calls = none
  read (suc f) [] = none
  read (suc f) (Call.null ∷ rest) = some (Json.null, rest)
  read (suc f) (Call.bool b ∷ rest) = some (Json.boolean b, rest)
  read (suc f) (Call.int64 z ∷ rest) = some (Json.integer z, rest)
  read (suc f) (Call.double n ∷ rest) = some (Json.double n, rest)
  read (suc f) (Call.string s ∷ rest) = some (Json.string s, rest)
  read (suc f) (Call.string_of_null ∷ rest) = none
  read (suc f) (Call.start_array ∷ rest) =
      read_members f true rest >>= λ (ms, more). some (Json.array ms, more)
  read (suc f) (Call.start_object ∷ rest) =
      read_members f false rest >>= λ (ms, more). some (Json.object ms, more)
  read (suc f) (Call.end_array ∷ rest) = none
  read (suc f) (Call.end_object ∷ rest) = none
  read (suc f) (Call.key k ∷ rest) = none

  pub read_members : ℕ → (in_array : Bool) → Calls → Option (Members × Calls)
  read_members zero in_array calls = none
  read_members (suc f) in_array (Call.end_array ∷ rest) =
      if in_array then some (Members.end, rest) else none
  read_members (suc f) in_array (Call.end_object ∷ rest) =
      if in_array then none else some (Members.end, rest)
  read_members (suc f) in_array (Call.key k ∷ rest) = read f rest >>= λ (j, more).
      read_members f in_array more >>= λ (ms, left). some (Members.member (some k) j ms, left)
  read_members (suc f) in_array calls = read f calls >>= λ (j, more).
      read_members f in_array more >>= λ (ms, left). some (Members.member none j ms, left)

-- The fuel that a value takes.
mutual
  cost : Json → ℕ
  cost (Json.array ms) = suc (cost_members ms)
  cost (Json.object ms) = suc (cost_members ms)
  cost _ = 1

  cost_members : Members → ℕ
  cost_members Members.end = 1
  cost_members (Members.member l j ms) = suc (cost j + cost_members ms)

cost_positive : (j : Json) → 0 < cost j
unfolding cost
cost_positive (Json.array ms) = omega arith
cost_positive Json.null = omega arith
cost_positive _ = omega arith

cost_members_positive : (ms : Members) → 0 < cost_members ms
unfolding cost
cost_members_positive Members.end = omega arith
cost_members_positive (Members.member l j ms) = omega arith

-- Twice the number of calls is enough fuel.
mutual
  unfolding cost calls_of

  cost_bound : (j : Json) → suc (cost j) ≤ 2 * length (calls_of j)
  cost_bound (Json.array ms) =
      omega (arith, cost_members_bound ms, length-append (member_calls ms) (Call.end_array ∷ []))
  cost_bound (Json.object ms) =
      omega (arith, cost_members_bound ms, length-append (member_calls ms) (Call.end_object ∷ []))
  cost_bound Json.null = omega arith
  cost_bound _ = omega arith

  cost_members_bound : (ms : Members) → cost_members ms ≤ suc (2 * length (member_calls ms))
  cost_members_bound Members.end = omega arith
  cost_members_bound (Members.member (some k) j ms) =
      omega
        (arith, cost_bound j, cost_members_bound ms, length-append (calls_of j) (member_calls ms))
  cost_members_bound (Members.member none j ms) =
      omega
        (arith, cost_bound j, cost_members_bound ms, length-append (calls_of j) (member_calls ms))

-- A value starts with none of the calls that `read_members` looks for.
read_unlabelled :
    (f : ℕ) (in_array : Bool) (j : Json) (rest : Calls)
    → read_members (suc f) in_array (calls_of j ++ rest) ≡ (
        read f (calls_of j ++ rest) >>= λ (i, more).
        read_members f in_array more >>= λ (ms, left). some (Members.member none i ms, left))
unfolding read_members calls_of
read_unlabelled f in_array Json.null rest = refl
read_unlabelled f in_array (Json.boolean b) rest = refl
read_unlabelled f in_array (Json.integer z) rest = refl
read_unlabelled f in_array (Json.double n) rest = refl
read_unlabelled f in_array (Json.string s) rest = refl
read_unlabelled f in_array (Json.array ms) rest = refl
read_unlabelled f in_array (Json.object ms) rest = refl

abbrev closing : Bool → Call
closing true = Call.end_array
closing false = Call.end_object

mutual
  unfolding read read_members cost calls_of

  read-calls_of :
      (j : Json) (f : ℕ) (rest : Calls) → cost j ≤ f → read f (calls_of j ++ rest) ≡ some (j, rest)
  read-calls_of j zero rest h = absurd (omega (arith, cost_positive j))
  read-calls_of Json.null (suc f) rest h = refl
  read-calls_of (Json.boolean b) (suc f) rest h = refl
  read-calls_of (Json.integer z) (suc f) rest h = refl
  read-calls_of (Json.double n) (suc f) rest h = refl
  read-calls_of (Json.string s) (suc f) rest h = refl
  read-calls_of (Json.array ms) (suc f) rest h = rw (
    append_assoc (member_calls ms) (Call.end_array ∷ []) rest,
    read-member_calls ms f true rest (omega arith),
  )
  read-calls_of (Json.object ms) (suc f) rest h = rw (
    append_assoc (member_calls ms) (Call.end_object ∷ []) rest,
    read-member_calls ms f false rest (omega arith),
  )

  read-member_calls :
      (ms : Members) (f : ℕ) (in_array : Bool) (rest : Calls)
      → cost_members ms ≤ f
      → read_members f in_array (member_calls ms ++ (closing in_array ∷ rest)) ≡ some (ms, rest)
  read-member_calls ms zero in_array rest h = absurd (omega (arith, cost_members_positive ms))
  read-member_calls Members.end (suc f) true rest h = refl
  read-member_calls Members.end (suc f) false rest h = refl
  read-member_calls (Members.member (some k) j ms) (suc f) in_array rest h = rw (
    append_assoc (calls_of j) (member_calls ms) (closing in_array ∷ rest),
    read-calls_of j f (member_calls ms ++ (closing in_array ∷ rest)) (omega arith),
    read-member_calls ms f in_array rest (omega arith),
  )
  read-member_calls (Members.member none j ms) (suc f) in_array rest h = rw (
    append_assoc (calls_of j) (member_calls ms) (closing in_array ∷ rest),
    read_unlabelled f in_array j (member_calls ms ++ (closing in_array ∷ rest)),
    read-calls_of j f (member_calls ms ++ (closing in_array ∷ rest)) (omega arith),
    read-member_calls ms f in_array rest (omega arith),
  )

-- Where metamethods give texts and the depth is within the limit, the calls that have been made for
-- a value are read back, with fuel for twice their number, as one JSON value, which the value
-- stands for, and none is left.
pub read-encode_value :
    (lua : Lua) (accepts : ℕ → Bool) (sort : List Key → List Key) (options : CustomizedEncoder)
    (texts : (v w : LuaValue) → lua.callmeta v ≡ gives w → (s : Bytes) × (tolstring lua w ≡ some s))
    (levels : ℕ) (v : LuaValue) (depth height : ℕ) (calls : Calls)
    → depth ≤ limit options.max_depth
    → encode_value lua accepts sort options levels v depth height ≡ done calls
    → (j : Json) × Describes lua accepts sort options v j
      × ((f : ℕ) → 2 * length calls ≤ f → read f calls ≡ some (j, []))
read-encode_value lua accepts sort options texts levels v depth height calls h e =
    let (j, d, same, small) =
      encode_value-Written lua accepts sort options texts levels v depth height calls h e in
    (
      j,
      d,
      λ f enough.
          let fits : cost j ≤ f = omega (arith, cost_bound j, ap length same) in
          ap (read f) (same ∙ sym (append-nil (calls_of j))) ∙ read-calls_of j f [] fits,
    )
