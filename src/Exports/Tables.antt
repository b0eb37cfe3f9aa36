-- ===== src/Exports/Tables.antt =====
-- How Lua calls a function of the runtime: Runtime/Bindings/FFI/*/*_exports.h declares a struct of
-- function pointers, getExportsTable of each *_ffi.cpp assigns them, and the declaration of the
-- struct in the binding's Lua file tells LuaJIT which slot a name has. Types of functions are left
-- out.
use Prim.Native.String.{String}
use text.Mathlib.Text.{◌==◌}
use text.Mathlib.TextEquality.{eq_iff}
use evo_runtime.Common.{
  ℕ, suc, ◌≡◌, refl, ap, Bool, true, false, ◌&&◌, Option, none, some, List, [], ◌∷◌, map,
  if◌then◌else◌, get_elem?, Bool-cases, Option-cases, inl, inr,
}

abbrev pub StructMembers : Type 0
StructMembers = List String

abbrev pub Assignments : Type 0
Assignments = List (String × String)

-- A member that has the name of its function.
abbrev pub own : String → String × String
own f = (f, f)

pub record Binding : Type 0 where
  pub struct : StructMembers
  pub assigned : Assignments
  pub declared : StructMembers

-- `exports.member = function`; a member that is not assigned stays null, `none`.
unfoldable pub assigned_to : String → Assignments → Option String
assigned_to name [] = none
assigned_to name ((member, f) ∷ rest) = if member == name then some f else assigned_to name rest

unfoldable pub exports_memory : Binding → List (Option String)
exports_memory b = map (λ name. assigned_to name b.assigned) b.struct

unfoldable pub slot : String → StructMembers → Option ℕ
slot name [] = none
slot name (member ∷ rest) =
    if member == name then some 0 else elim (slot name rest) [ none ↦ none | some i ↦ some (suc i) ]

-- The function that a call of `exports.name` in Lua reaches; `none` is a call of a null pointer, or
-- a name that is not declared.
unfoldable pub call : Binding → String → Option String
call b name = elim (slot name b.declared) [
  | none ↦ none
  | some i ↦ elim (get_elem? (exports_memory b) i) [ none ↦ none | some f ↦ f ]
]

unfoldable pub same_layout : StructMembers → StructMembers → Bool
same_layout [] [] = true
same_layout [] (y ∷ ys) = false
same_layout (x ∷ xs) [] = false
same_layout (x ∷ xs) (y ∷ ys) = x == y && same_layout xs ys

unfoldable pub is_assigned : String → Assignments → Bool
is_assigned name l = elim (assigned_to name l) [ none ↦ false | some f ↦ true ]

unfoldable pub all_assigned : StructMembers → Assignments → Bool
all_assigned [] l = true
all_assigned (name ∷ rest) l = is_assigned name l && all_assigned rest l

-- Whether both sides have the same members in the same order, and each is assigned.
unfoldable pub is_consistent : Binding → Bool
unfolding same_layout is_assigned all_assigned assigned_to
is_consistent b = same_layout b.struct b.declared && all_assigned b.struct b.assigned

pub both : (a b : Bool) → (a && b) ≡ true → (a ≡ true) × (b ≡ true)
both true b h = (refl, h)
both false b h = cc

pub same_layout-eq : (l m : StructMembers) → same_layout l m ≡ true → l ≡ m
unfolding same_layout
same_layout-eq [] [] h = refl
same_layout-eq [] (y ∷ ys) h = cc
same_layout-eq (x ∷ xs) [] h = cc
same_layout-eq (x ∷ xs) (y ∷ ys) h =
    let (first, rest) = both (x == y) (same_layout xs ys) h in
    λ i. (eq_iff x y).0 first i ∷ same_layout-eq xs ys rest i

assigned_here :
    (name : String) (l : Assignments)
    → is_assigned name l ≡ true
    → (f : String) × (assigned_to name l ≡ some f)
unfolding is_assigned
assigned_here name l h = elim (Option-cases (assigned_to name l)) [
  | inl e ↦ cc (rw (e, is_assigned) at h)
  | inr (f, e) ↦ (f, e)
]

slot_first :
    (name member : String) (rest : StructMembers)
    → (member == name) ≡ true
    → slot name (member ∷ rest) ≡ some 0
unfolding slot
slot_first name member rest e = rw e

slot_missing :
    (name member : String) (rest : StructMembers)
    → (member == name) ≡ false
    → slot name rest ≡ none
    → slot name (member ∷ rest) ≡ none
unfolding slot
slot_missing name member rest e h = rw (e, h)

slot_later :
    (name member : String) (rest : StructMembers) (j : ℕ)
    → (member == name) ≡ false
    → slot name rest ≡ some j
    → slot name (member ∷ rest) ≡ some (suc j)
unfolding slot
slot_later name member rest j e h = rw (e, h)

-- The slot of a declared name holds what is assigned to that name.
pub slot_holds :
    (name : String) (l : StructMembers) (a : Assignments) (i : ℕ)
    → slot name l ≡ some i
    → all_assigned l a ≡ true
    → (f : String) × (get_elem? (map (λ n. assigned_to n a) l) i ≡ some (some f))
      × (assigned_to name a ≡ some f)
unfolding slot all_assigned
slot_holds name [] a i h k = cc
slot_holds name (member ∷ rest) a i h k =
    let (here, there) = both (is_assigned member a) (all_assigned rest a) k in
    elim (Bool-cases (member == name)) [
      | inl e ↦
          let (f, got) = assigned_here member a here in
          let first : i ≡ 0 = cc (slot_first name member rest e) in
          (f, rw first (ap some got), rw (← (eq_iff member name).0 e) got)
      | inr e ↦ elim (Option-cases (slot name rest)) [
        | inl missing ↦ cc (slot_missing name member rest e missing)
        | inr (j, found) ↦
            let next : i ≡ suc j = cc (slot_later name member rest j e found) in
            let (f, got, given) = slot_holds name rest a j found there in (f, rw next got, given)
      ]
    ]
