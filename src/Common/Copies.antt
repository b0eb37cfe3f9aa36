-- ===== src/Common/Copies.antt =====
-- The three ways in which the runtime copies a text into a caller's buffer and ends it with a NUL.
use evo_runtime.Common.{
  ℕ, zero, suc, ◌≤◌, ◌<◌, ◌≡◌, refl, ap, sym, some, [], ◌∷◌, ◌++◌, append-nil, arith, length,
  length-append, length-take, length-drop, take, drop, take-append, le→leb,
}
use evo_runtime.Common.Bytes.{
  Bytes, c_string, c_string-NoNul, padded, padded_nul, length-padded, strncpy, memcpy, store,
  store-append, drop_step, ◌>>=◌,
}

padded-suc : (n : ℕ) (x : Bytes) → (b : ℕ) × (padded (suc n) x ≡ padded n x ++ b ∷ [])
unfolding padded
padded-suc zero [] = (0, refl)
padded-suc zero (a ∷ x) = (a, refl)
padded-suc (suc n) [] = let (b, e) = padded-suc n [] in (b, ap (λ t. 0 ∷ t) e)
padded-suc (suc n) (a ∷ x) = let (b, e) = padded-suc n x in (b, ap (λ t. a ∷ t) e)

drop_all : (n : ℕ) (x : Bytes) → length x ≤ n → drop n x ≡ []
drop_all zero [] h = refl
drop_all zero (a ∷ x) h = absurd (omega arith)
drop_all (suc n) [] h = refl
drop_all (suc n) (a ∷ x) h = drop_all n x (omega arith)

drop-append_suc :
    (n : ℕ) (x : Bytes) (a : ℕ) (y : Bytes) → n ≡ length x → drop (suc n) (x ++ a ∷ y) ≡ y
drop-append_suc zero [] a y h = refl
drop-append_suc zero (b ∷ x) a y h = absurd (omega arith)
drop-append_suc (suc n) [] a y h = absurd (omega arith)
drop-append_suc (suc n) (b ∷ x) a y h = drop-append_suc n x a y (omega arith)

strncpy_fits :
    (buffer text : Bytes) (n : ℕ)
    → n ≤ length buffer
    → strncpy buffer text n ≡ some (padded n (c_string text) ++ drop n buffer)
unfolding strncpy
strncpy_fits buffer text n h = rw (le→leb n (length buffer) h)

memcpy_fits :
    (buffer text : Bytes) (n : ℕ)
    → n ≤ length buffer
    → memcpy buffer text n ≡ some (take n text ++ drop n buffer)
unfolding memcpy
memcpy_fits buffer text n h = rw (le→leb n (length buffer) h)

-- `strncpy` over the whole of a buffer of n + 1 bytes, and a NUL over its last byte.
pub strncpy_whole :
    (n : ℕ) (buffer text : Bytes)
    → length buffer ≡ suc n
    → (filled : Bytes) × ((strncpy buffer text (suc n) >>= λ copied. store copied n 0)
        ≡ some filled)
      × (c_string filled ≡ take n (c_string text))
      × (length filled ≡ suc n)
strncpy_whole n buffer text h =
    let x : Bytes = c_string text in
    let (b, e) = padded-suc n x in
    (
      padded n x ++ 0 ∷ [],
      rw
          (
            strncpy_fits buffer text (suc n) (omega arith),
            drop_all (suc n) buffer (omega arith),
            append-nil,
            e,
          )
          (store-append (padded n x) b [] n 0 (sym (length-padded n x))),
      padded_nul n x [] (c_string-NoNul text),
      omega (arith, length-append (padded n x) (0 ∷ []), length-padded n x),
    )

-- `strncpy` of n bytes into a longer buffer, and a NUL behind them.
pub strncpy_room :
    (n : ℕ) (buffer text : Bytes)
    → n < length buffer
    → (filled : Bytes) × ((strncpy buffer text n >>= λ copied. store copied n 0) ≡ some filled)
      × (c_string filled ≡ take n (c_string text))
      × (length filled ≡ length buffer)
      × (drop (suc n) filled ≡ drop (suc n) buffer)
strncpy_room n buffer text h =
    let x : Bytes = c_string text in
    let (a, e) = drop_step n buffer h in
    (
      padded n x ++ 0 ∷ drop (suc n) buffer,
      rw (strncpy_fits buffer text n (omega arith), e)
          (store-append (padded n x) a (drop (suc n) buffer) n 0 (sym (length-padded n x))),
      padded_nul n x (drop (suc n) buffer) (c_string-NoNul text),
      omega (
        arith,
        length-append (padded n x) (0 ∷ drop (suc n) buffer),
        length-padded n x,
        length-drop (suc n) buffer,
      ),
      drop-append_suc n (padded n x) 0 (drop (suc n) buffer) (sym (length-padded n x)),
    )

-- `memcpy` of n bytes into a longer buffer, and a NUL behind them.
pub memcpy_room :
    (n : ℕ) (buffer text : Bytes)
    → n < length buffer
    → n ≤ length text
    → (filled : Bytes) × ((memcpy buffer text n >>= λ written. store written n 0) ≡ some filled)
      × (take n filled ≡ take n text)
      × (length filled ≡ length buffer)
memcpy_room n buffer text h k =
    let x : Bytes = take n text in
    let l : n ≡ length x = omega (arith, length-take n text) in
    let (a, e) = drop_step n buffer h in
    (
      x ++ 0 ∷ drop (suc n) buffer,
      rw (memcpy_fits buffer text n (omega arith), e)
          (store-append x a (drop (suc n) buffer) n 0 l),
      take-append n x (0 ∷ drop (suc n) buffer) l,
      omega (arith, length-append x (0 ∷ drop (suc n) buffer), length-drop (suc n) buffer),
    )
