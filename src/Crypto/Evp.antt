-- ===== src/Crypto/Evp.antt =====
-- crypto_ffi.cpp: Base64 by OpenSSL. The encoder is not in the repository; its answers are given.
-- The size of the destination, which the two functions take, is not used by them.
use evo_runtime.Common.{
  ℕ, ◌+◌, ◌≡◌, Bool, Option, none, some, List, [], ◌∷◌, ◌++◌, if◌then◌else◌, length, arith, inl,
  inr, Bool-cases,
}
use evo_runtime.Common.Bytes.{Bytes}
use evo_runtime.Crypto.Base64.{write_out}

-- An `EVP_ENCODE_CTX` that OpenSSL gives out, or `none`, and what its functions write, one after
-- the other. Those that decode also return whether they failed, with -1.
pub record Encoder (C : Type 0) : Type 0 where
  pub ctx_new : Option C
  pub encode_init : C → C
  pub encode_update : C → Bytes → Bytes × C
  pub encode_final : C → Bytes
  pub decode_init : C → C
  pub decode_update : C → Bytes → Bool × Bytes × C
  pub decode_final : C → Bool × Bytes

-- What becomes of a context.
pub data ContextCall : Type 0 where
  context_new context_free : ContextCall

-- The context is freed, and a number returned.
abbrev pub freeing : Option Bytes → ℕ → Option (ℕ × Bytes × List ContextCall)
freeing none n = none
freeing (some written) n =
    some (n, written, ContextCall.context_new ∷ ContextCall.context_free ∷ [])

freeing-calls :
    (o : Option Bytes) (n m : ℕ) (a : Bytes) (calls : List ContextCall)
    → freeing o n ≡ some (m, a, calls)
    → calls ≡ ContextCall.context_new ∷ ContextCall.context_free ∷ []
freeing-calls none n m a calls h = cc
freeing-calls (some written) n m a calls h = ground (arith, h)

module _ {C : Type 0} (encoder : Encoder C) where
  -- The result, the destination and the calls; a write past the end of the destination is a fault.
  unfoldable pub openssl_to_base64 : Bytes → ℕ → Bytes → Option (ℕ × Bytes × List ContextCall)
  openssl_to_base64 dst dst_len src = elim encoder.ctx_new [
    | none ↦ some (0, dst, ContextCall.context_new ∷ [])
    | some ctx ↦
        let (first, updated) = encoder.encode_update (encoder.encode_init ctx) src in
        let last = encoder.encode_final updated in
        freeing (write_out dst (first ++ last)) (length first + length last)
  ]

  -- Behind a failure, what has been written stays in the destination.
  unfoldable pub openssl_from_base64 : Bytes → ℕ → Bytes → Option (ℕ × Bytes × List ContextCall)
  openssl_from_base64 dst dst_len src = elim encoder.ctx_new [
    | none ↦ some (0, dst, ContextCall.context_new ∷ [])
    | some ctx ↦
        let (failed, first, updated) = encoder.decode_update (encoder.decode_init ctx) src in
        let (bad_end, last) = encoder.decode_final updated in
        if failed
        then freeing (write_out dst first) 0
        else freeing (write_out dst (first ++ last))
            (if bad_end then 0 else length first + length last)
  ]

  -- Where neither function leaves the destination, each has freed the context that it was given,
  -- also where the source cannot be decoded.
  pub openssl_base64-context :
      (dst src : Bytes) (dst_len : ℕ) (ctx : C) (n m : ℕ) (a b : Bytes)
      (calls others : List ContextCall)
      → encoder.ctx_new ≡ some ctx
      → openssl_to_base64 dst dst_len src ≡ some (n, a, calls)
      → openssl_from_base64 dst dst_len src ≡ some (m, b, others)
      → (calls ≡ ContextCall.context_new ∷ ContextCall.context_free ∷ [])
        × (others ≡ ContextCall.context_new ∷ ContextCall.context_free ∷ [])
  unfolding openssl_to_base64 openssl_from_base64
  openssl_base64-context dst src dst_len ctx n m a b calls others e h k = (
    freeing-calls _ _ n a calls (rw (e, openssl_to_base64) at h),
    elim (Bool-cases (encoder.decode_update (encoder.decode_init ctx) src).0) [
      | inl f ↦ freeing-calls _ _ m b others (rw (e, f, openssl_from_base64) at k)
      | inr f ↦ freeing-calls _ _ m b others (rw (e, f, openssl_from_base64) at k)
    ],
  )
