-- ===== src/Json/Meaning.antt =====
-- What a JSON value is, which of them a Lua value stands for, and how a writer is told of one: an
-- account of the encoder of Runtime/Bindings/rapidjson.hpp without recursion on a stack, heights
-- and errors.
use evo_runtime.Common.{
  ℕ, zero, suc, ◌+◌, ◌≡◌, Bool, true, false, Option, none, some, List, [], ◌∷◌, ◌++◌, if◌then◌else◌,
}
use evo_runtime.Common.Bytes.{Bytes}
use evo_runtime.Common.Int.{ℤ}
use evo_runtime.Json.Values.{LuaValue, gives, Lua, Call, CustomizedEncoder, Key}
use evo_runtime.Json.Encoder.{Calls, in_size, rounds, taken_key, collect_keys, tolstring}

-- The members of an object have a label, those of an array have none.
abbrev pub Label : Type 0
Label = Option Bytes

mutual
  pub data Json : Type 0 where
    null : Json
    boolean : Bool → Json
    integer : ℤ → Json
    double : ℕ → Json
    string : Bytes → Json
    array : Members → Json
    object : Members → Json

  pub data Members : Type 0 where
    end : Members
    member : Label → Json → Members → Members

abbrev pub larger : ℕ → ℕ → ℕ
larger zero b = b
larger (suc a) zero = suc a
larger (suc a) (suc b) = suc (larger a b)

-- How many tables stand inside one another.
unfoldable mutual
  pub nesting : Json → ℕ
  nesting (Json.array ms) = suc (nesting_members ms)
  nesting (Json.object ms) = suc (nesting_members ms)
  nesting _ = 0

  pub nesting_members : Members → ℕ
  nesting_members end = 0
  nesting_members (member l j ms) = larger (nesting j) (nesting_members ms)

abbrev pub label_calls : Label → Calls
label_calls none = []
label_calls (some k) = Call.key k ∷ []

-- The calls that write a value, in the order of its text.
unfoldable mutual
  pub calls_of : Json → Calls
  calls_of Json.null = Call.null ∷ []
  calls_of (Json.boolean b) = Call.bool b ∷ []
  calls_of (Json.integer z) = Call.int64 z ∷ []
  calls_of (Json.double n) = Call.double n ∷ []
  calls_of (Json.string s) = Call.string s ∷ []
  calls_of (Json.array ms) = Call.start_array ∷ member_calls ms ++ Call.end_array ∷ []
  calls_of (Json.object ms) = Call.start_object ∷ member_calls ms ++ Call.end_object ∷ []

  pub member_calls : Members → Calls
  member_calls end = []
  member_calls (member l j ms) = label_calls l ++ (calls_of j ++ member_calls ms)

module _ (lua : Lua) where
  unfoldable pub elements : ℕ → (n left : ℕ) → List (Label × LuaValue)
  elements t n zero = []
  elements t n (suc left) = (none, lua.rawgeti t n) ∷ elements t (n + 1) left

  unfoldable pub sorted_fields : ℕ → List Key → List (Label × LuaValue)
  sorted_fields t [] = []
  sorted_fields t (k ∷ rest) =
      (some (taken_key k), lua.gettable t (taken_key k)) ∷ sorted_fields t rest

-- A pair whose key is no string is left out.
unfoldable pub string_fields : List (LuaValue × LuaValue) → List (Label × LuaValue)
string_fields [] = []
string_fields ((LuaValue.string k, v) ∷ rest) = (some (in_size k), v) ∷ string_fields rest
string_fields ((_, v) ∷ rest) = string_fields rest

module _ (lua : Lua) (accepts : ℕ → Bool) (sort : List Key → List Key)
    (options : CustomizedEncoder) where
  abbrev pub is_array : ℕ → Bool
  is_array t = lua.isarray t options.empty_table_as_array

  -- The members of a table, in the order in which they are encoded.
  unfoldable pub contents : ℕ → List (Label × LuaValue)
  contents t =
      if is_array t
      then elements lua t 1 (rounds (lua.rawlen t))
      else if options.sort_keys
      then sorted_fields lua t (sort (collect_keys (lua.next t)))
      else string_fields (lua.next t)

  mutual
    pub data Describes : LuaValue → Json → Type 0 where
      nil : Describes LuaValue.nil Json.null
      null_pointer : {p : ℕ} → lua.isnull p ≡ true → Describes (LuaValue.lightuserdata p) Json.null
      boolean : {b : Bool} → Describes (LuaValue.boolean b) (Json.boolean b)
      integer :
          {n : ℕ} {z : ℤ}
          → lua.isinteger n ≡ some z
          → Describes (LuaValue.number n) (Json.integer z)
      double :
          {n : ℕ}
          → lua.isinteger n ≡ none
          → accepts n ≡ true
          → Describes (LuaValue.number n) (Json.double n)
      string : {s r : Bytes} → r ≡ in_size s → Describes (LuaValue.string s) (Json.string r)
      pointer_text :
          {p : ℕ} {w : LuaValue} {s r : Bytes}
          → lua.isnull p ≡ false
          → lua.callmeta (LuaValue.lightuserdata p) ≡ gives w
          → tolstring lua w ≡ some s
          → r ≡ in_size s
          → Describes (LuaValue.lightuserdata p) (Json.string r)
      object_text :
          {o : ℕ} {w : LuaValue} {s r : Bytes}
          → lua.callmeta (LuaValue.object o) ≡ gives w
          → tolstring lua w ≡ some s
          → r ≡ in_size s
          → Describes (LuaValue.object o) (Json.string r)
      array :
          {t : ℕ} {l : List (Label × LuaValue)} {ms : Members}
          → is_array t ≡ true
          → l ≡ contents t
          → DescribesMembers l ms
          → Describes (LuaValue.table t) (Json.array ms)
      object :
          {t : ℕ} {l : List (Label × LuaValue)} {ms : Members}
          → is_array t ≡ false
          → l ≡ contents t
          → DescribesMembers l ms
          → Describes (LuaValue.table t) (Json.object ms)

    pub data DescribesMembers : List (Label × LuaValue) → Members → Type 0 where
      end : DescribesMembers [] Members.end
      member :
          {label : Label} {v : LuaValue} {rest : List (Label × LuaValue)} {j : Json} {ms : Members}
          → Describes v j
          → DescribesMembers rest ms
          → DescribesMembers ((label, v) ∷ rest) (Members.member label j ms)
