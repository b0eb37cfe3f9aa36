-- ===== src/Common/Map.antt =====
-- `std::unordered_map<std::string, V>` as an association list with distinct keys. The order of the
-- list stands for the order of iteration, which the C++ container leaves open.
use evo_runtime.Common.{
  ◌≡◌, refl, Option, none, some, List, [], ◌∷◌, arith, if◌then◌else◌, Bool-cases, inl, inr,
}
use evo_runtime.Common.Bytes.{Bytes, key_eq, key_eq_iff}

abbrev pub Map {ℓ} : Type ℓ → Type ℓ
Map V = List (Bytes × V)

module _ {ℓ} {V : Type ℓ} where
  unfoldable pub find : Bytes → Map V → Option V
  find k [] = none
  find k ((j, v) ∷ m) = if key_eq j k then some v else find k m

  -- `m[k] = v`
  unfoldable pub assign : Bytes → V → Map V → Map V
  assign k v [] = (k, v) ∷ []
  assign k v ((j, w) ∷ m) = if key_eq j k then (j, v) ∷ m else (j, w) ∷ assign k v m

  -- `m.emplace(k, v)` leaves an entry that is there.
  unfoldable pub emplace : Bytes → V → Map V → Map V
  emplace k v m = elim (find k m) [ none ↦ assign k v m | some w ↦ m ]

  unfoldable pub erase : Bytes → Map V → Map V
  erase k [] = []
  erase k ((j, w) ∷ m) = let rest = erase k m in if key_eq j k then rest else (j, w) ∷ rest

  abbrev pub keys : Map V → List Bytes
  keys [] = []
  keys ((j, w) ∷ m) = j ∷ keys m

  abbrev pub Distinct : Map V → Type ℓ
  Distinct [] = Unit
  Distinct ((j, w) ∷ m) = (find j m ≡ none) × Distinct m

  abbrev pub Entries {κ} : (Bytes → V → Type κ) → Map V → Type κ
  Entries P [] = Unit
  Entries P ((j, w) ∷ m) = P j w × Entries P m

  pub find-assign :
      (k j : Bytes) (v : V) (m : Map V)
      → find j (assign k v m) ≡ (if key_eq k j then some v else find j m)
  unfolding find assign
  find-assign k j v [] = refl
  find-assign k j v ((i, w) ∷ m) =
      ground (arith, key_eq_iff k j, key_eq_iff i k, key_eq_iff i j, find-assign k j v m)

  pub find-erase :
      (k j : Bytes) (m : Map V) → find j (erase k m) ≡ (if key_eq k j then none else find j m)
  unfolding find erase
  find-erase k j [] = ground arith
  find-erase k j ((i, w) ∷ m) =
      ground (arith, key_eq_iff k j, key_eq_iff i k, key_eq_iff i j, find-erase k j m)

  pub Distinct-assign : (k : Bytes) (v : V) (m : Map V) → Distinct m → Distinct (assign k v m)
  unfolding assign find
  Distinct-assign k v [] d = (refl, tt)
  Distinct-assign k v ((i, w) ∷ m) d =
      ground (arith, key_eq_iff k i, key_eq_iff i k, find-assign k i v m, Distinct-assign k v m)

  pub Distinct-erase : (k : Bytes) (m : Map V) → Distinct m → Distinct (erase k m)
  unfolding erase
  Distinct-erase k [] d = tt
  Distinct-erase k ((i, w) ∷ m) d = ground (arith, find-erase k i m, Distinct-erase k m)

  pub Distinct-emplace : (k : Bytes) (v : V) (m : Map V) → Distinct m → Distinct (emplace k v m)
  unfolding emplace
  Distinct-emplace k v m d = ground (arith, Distinct-assign k v m d)

  module _ {κ} (P : Bytes → V → Type κ) where
    pub Entries-assign :
        (k : Bytes) (v : V) (m : Map V) → P k v → Entries P m → Entries P (assign k v m)
    unfolding assign
    Entries-assign k v [] p e = (p, tt)
    Entries-assign k v ((i, w) ∷ m) p e = elim (Bool-cases (key_eq i k)) [
      | inl h ↦ rw (h, (key_eq_iff i k).0 h) (p, e.1)
      | inr h ↦ rw h (e.0, Entries-assign k v m p e.1)
    ]

    pub Entries-erase : (k : Bytes) (m : Map V) → Entries P m → Entries P (erase k m)
    unfolding erase
    Entries-erase k [] e = tt
    Entries-erase k ((i, w) ∷ m) e = ground (arith, Entries-erase k m e.1)

    pub Entries-find : (k : Bytes) (v : V) (m : Map V) → Entries P m → find k m ≡ some v → P k v
    unfolding find
    Entries-find k v [] e h = cc
    Entries-find k v ((i, w) ∷ m) e h = ground (arith, key_eq_iff i k, Entries-find k v m e.1)
