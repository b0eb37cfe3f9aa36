-- ===== src/Common/Bytes.antt =====
-- `std::string` and `char` buffers as lists of byte values, and the three routines of <cstring>
-- that the runtime writes buffers with. A write past the end of a buffer is a fault, `none`.
use Prim.Native.Char.{code}
use Prim.Native.String.{String}
use evo_runtime.Common.{
  ℕ, zero, suc, ◌+◌, ◌-◌, ◌%◌, ◌^◌, ◌<◌, ◌≡◌, refl, ap, ◌≢◌, ◌↔◌, Bool, true, false, ◌&&◌, Option,
  none, some, List, [], ◌∷◌, ◌++◌, arith, leb, ◌==◌, if◌then◌else◌, length, take, drop, All,
  Bool-cases, inl, inr,
}

abbrev pub Bytes : Type 0
Bytes = List ℕ

-- A literal of the source.
abbrev pub codes : String → Bytes
codes String.[] = []
codes (String.◌∷◌ c s) = code c ∷ codes s

unfoldable pub key_eq : Bytes → Bytes → Bool
key_eq [] [] = true
key_eq [] (b ∷ y) = false
key_eq (a ∷ x) [] = false
key_eq (a ∷ x) (b ∷ y) = a == b && key_eq x y

pub key_eq_iff : (x y : Bytes) → (key_eq x y ≡ true) ↔ (x ≡ y)
unfolding key_eq
key_eq_iff [] [] = (λ h. refl, λ h. refl)
key_eq_iff [] (b ∷ y) = (λ h. cc, λ h. cc)
key_eq_iff (a ∷ x) [] = (λ h. cc, λ h. cc)
key_eq_iff (a ∷ x) (b ∷ y) =
    (λ h. ground (arith, key_eq_iff x y), λ h. ground (arith, key_eq_iff x y))

pub key_eq_refl : (x : Bytes) → key_eq x x ≡ true
key_eq_refl x = (key_eq_iff x x).1 refl

-- `size - 1` on size_t.
abbrev pub pred_size : ℕ → ℕ
pred_size n = (n + 2 ^ 64 - 1) % 2 ^ 64

-- What a reader of a `char*` sees: the bytes before the first NUL.
unfoldable pub c_string : Bytes → Bytes
c_string [] = []
c_string (a ∷ x) = let rest = c_string x in if a == 0 then [] else a ∷ rest

-- `strncpy(dst, src, n)` writes exactly n bytes: the C string `src`, cut or padded with NULs.
unfoldable pub padded : ℕ → Bytes → Bytes
padded zero x = []
padded (suc n) [] = 0 ∷ padded n []
padded (suc n) (a ∷ x) = a ∷ padded n x

unfoldable pub strncpy : Bytes → Bytes → ℕ → Option Bytes
strncpy dst src n =
    if leb n (length dst) then some (padded n (c_string src) ++ drop n dst) else none

-- `memcpy(dst, src, n)`; n bytes of `src` are there at every call.
unfoldable pub memcpy : Bytes → Bytes → ℕ → Option Bytes
memcpy dst src n = if leb n (length dst) then some (take n src ++ drop n dst) else none

-- `dst[i] = b`
unfoldable pub store : Bytes → ℕ → ℕ → Option Bytes
store [] i b = none
store (a ∷ x) zero b = some (b ∷ x)
store (a ∷ x) (suc i) b = elim (store x i b) [ none ↦ none | some y ↦ some (a ∷ y) ]

infixl 5 ◌>>=◌
abbrev pub ◌>>=◌ {ℓ κ} : {A : Type ℓ} {B : Type κ} → Option A → (A → Option B) → Option B
none >>= f = none
some a >>= f = f a

pub length-padded : (n : ℕ) (x : Bytes) → length (padded n x) ≡ n
unfolding padded
length-padded zero x = refl
length-padded (suc n) [] = ap suc (length-padded n [])
length-padded (suc n) (a ∷ x) = ap suc (length-padded n x)

-- A text with no NUL inside is read back whole.
abbrev pub NoNul : Bytes → Type 0
NoNul = All (λ a. a ≢ 0)

pub c_string-NoNul : (x : Bytes) → NoNul (c_string x)
unfolding c_string
c_string-NoNul [] = tt
c_string-NoNul (a ∷ x) = elim (Bool-cases (a == 0)) [
  | inl e ↦ rw e tt
  | inr e ↦ rw e (λ z. ground arith, c_string-NoNul x)
]

pub c_string_id : (x : Bytes) → NoNul x → c_string x ≡ x
unfolding c_string
c_string_id [] h = refl
c_string_id (a ∷ x) h = ground (arith, h.0, c_string_id x h.1)

-- `strncpy` at a size that leaves room, then a NUL in the next place: the copy that the getters
-- make.
pub padded_nul : (n : ℕ) (x more : Bytes) → NoNul x → c_string (padded n x ++ (0 ∷ more)) ≡ take n x
unfolding padded c_string
padded_nul zero x more h = refl
padded_nul (suc n) [] more h = refl
padded_nul (suc n) (a ∷ x) more h = ground (arith, h.0, padded_nul n x more h.1)

pub taken_nul : (x more : Bytes) → NoNul x → c_string (x ++ (0 ∷ more)) ≡ x
unfolding c_string
taken_nul [] more h = refl
taken_nul (a ∷ x) more h = ground (arith, h.0, taken_nul x more h.1)

-- A byte is stored behind a prefix.
pub store-append :
    (x : Bytes) (a : ℕ) (y : Bytes) (i b : ℕ)
    → i ≡ length x
    → store (x ++ (a ∷ y)) i b ≡ some (x ++ (b ∷ y))
unfolding store
store-append [] a y zero b h = refl
store-append [] a y (suc i) b h = absurd (omega arith)
store-append (c ∷ x) a y zero b h = absurd (omega arith)
store-append (c ∷ x) a y (suc i) b h = rw (store-append x a y i b (omega arith))

-- A buffer with room behind n bytes has a byte there.
pub drop_step : (n : ℕ) (x : Bytes) → n < length x → (a : ℕ) × (drop n x ≡ a ∷ drop (suc n) x)
drop_step n [] h = absurd (omega arith)
drop_step zero (a ∷ x) h = (a, refl)
drop_step (suc n) (a ∷ x) h = drop_step n x (omega arith)
