-- ===== src/Crypto/Kdf.antt =====
-- Runtime/Bindings/FFI/crypto/crypto_ffi.cpp: OpenSSL's Base64 routines behind their wrappers, and
-- `openssl_kdf_derive` with its error path. OpenSSL is not in the repository: `Openssl` holds its
-- answers, and the calls that the code makes are recorded, oldest first.
use evo_runtime.Common.{
  ℕ, ◌≡◌, refl, ◌⊎◌, Bool, true, false, not, Option, none, some, List, [], ◌∷◌, ◌++◌, if◌then◌else◌,
  arith, Bool-cases, Option-cases, inl, inr,
}
use evo_runtime.Common.Bytes.{Bytes, c_string}

-- What is derived from. A `const char*` with its length is a text.
pub record KdfInput : Type 0 where
  pub password : Bytes
  pub salt : Bytes

pub record KdfParameters : Type 0 where
  pub kdf : Bytes
  pub version : ℕ
  pub kilobytes : ℕ
  pub threads : ℕ
  pub lanes : ℕ
  pub size : ℕ
  pub iterations : ℕ

pub record KdfResult : Type 0 where
  pub success : Bool
  pub hash : Bytes
  pub message : Bytes

-- An entry of the `OSSL_PARAM` array; its end is the list's.
pub data KdfParam : Type 0 where
  octet_string : Bytes → Bytes → KdfParam
  uint32 : Bytes → ℕ → KdfParam

-- Calls of OpenSSL. A handle is a number; freeing a null pointer is `none`.
pub data Call : Type 0 where
  set_max_threads : ℕ → Call
  kdf_fetch : Bytes → Call
  kdf_ctx_new : ℕ → Call
  kdf_derive : ℕ → ℕ → List KdfParam → Call
  get_error : Call
  kdf_free kdf_ctx_free : Option ℕ → Call

-- The answers of OpenSSL. The names of the parameters are constants of its headers. A derivation
-- returns whether it succeeded, and the hash buffer afterwards.
pub record Openssl : Type 0 where
  pub password_key : Bytes
  pub salt_key : Bytes
  pub version_key : Bytes
  pub iter_key : Bytes
  pub threads_key : Bytes
  pub lanes_key : Bytes
  pub memcost_key : Bytes
  pub threads_set : ℕ → Bool
  pub fetched : Bytes → Option ℕ
  pub created : ℕ → Option ℕ
  pub derived : ℕ → ℕ → List KdfParam → Bytes → Bool × Bytes
  pub error_string : List Call → Bytes

unfoldable pub kdf_params : Openssl → KdfInput → KdfParameters → List KdfParam
kdf_params openssl inputs parameters =
    KdfParam.octet_string openssl.password_key inputs.password
    ∷ KdfParam.octet_string openssl.salt_key inputs.salt
    ∷ KdfParam.uint32 openssl.version_key parameters.version
    ∷ KdfParam.uint32 openssl.iter_key parameters.iterations
    ∷ KdfParam.uint32 openssl.threads_key parameters.threads
    ∷ KdfParam.uint32 openssl.lanes_key parameters.lanes
    ∷ KdfParam.uint32 openssl.memcost_key parameters.kilobytes
    ∷ []

-- The code behind the label `fail`, with the two handles as they then are.
unfoldable pub fail : Openssl → Option ℕ → Option ℕ → List Call → KdfResult → KdfResult × List Call
fail openssl kdf kctx calls result =
    let asked = calls ++ Call.get_error ∷ [] in
    (
      record result { message = openssl.error_string asked },
      asked ++ (Call.kdf_free kdf ∷ Call.kdf_ctx_free kctx ∷ Call.set_max_threads 0 ∷ []),
    )

unfoldable pub openssl_kdf_derive :
    Openssl → KdfInput → KdfParameters → KdfResult → KdfResult × List Call
unfolding kdf_params fail
openssl_kdf_derive openssl inputs parameters result =
    let begun = record result { success = false } in
    let limited = Call.set_max_threads parameters.threads ∷ [] in
    let params = kdf_params openssl inputs parameters in
    let fetching = limited ++ Call.kdf_fetch (c_string parameters.kdf) ∷ [] in
    if not (openssl.threads_set parameters.threads)
    then fail openssl none none limited begun
    else elim (openssl.fetched (c_string parameters.kdf)) [
      | none ↦ fail openssl none none fetching begun
      | some kdf ↦ elim (openssl.created kdf) [
        | none ↦ fail openssl (some kdf) none (fetching ++ Call.kdf_ctx_new kdf ∷ []) begun
        | some kctx ↦
            let calls =
              fetching
              ++ (Call.kdf_ctx_new kdf ∷ Call.kdf_derive kctx parameters.size params ∷ []) in
            let (ok, hash) = openssl.derived kctx parameters.size params result.hash in
            if not ok
            then fail openssl (some kdf) (some kctx) calls (record begun { hash = hash })
            else (record begun { success = true; hash = hash }, calls)
      ]
    ]

-- A handle of OpenSSL: `EVP_KDF*` or `EVP_KDF_CTX*`.
pub data Handle : Type 0 where
  kdf_handle kdf_ctx_handle : ℕ → Handle

-- The handles that a run freed, each once for each call, in the order of the calls, and the thread
-- limit that it left behind.
abbrev pub freed : List Call → List Handle
freed [] = []
freed (Call.kdf_free (some h) ∷ calls) = Handle.kdf_handle h ∷ freed calls
freed (Call.kdf_ctx_free (some h) ∷ calls) = Handle.kdf_ctx_handle h ∷ freed calls
freed (_ ∷ calls) = freed calls

abbrev pub thread_limit : Option ℕ → List Call → Option ℕ
thread_limit last [] = last
thread_limit last (Call.set_max_threads n ∷ calls) = thread_limit (some n) calls
thread_limit last (_ ∷ calls) = thread_limit last calls

module _ (openssl : Openssl) (inputs : KdfInput) (parameters : KdfParameters)
    (result : KdfResult) where
  -- The handles that OpenSSL gives out, the older first.
  abbrev pub obtained : List Handle
  obtained =
      if not (openssl.threads_set parameters.threads)
      then []
      else elim (openssl.fetched (c_string parameters.kdf)) [
        | none ↦ []
        | some h ↦ elim (openssl.created h) [
          | none ↦ Handle.kdf_handle h ∷ []
          | some k ↦ Handle.kdf_handle h ∷ Handle.kdf_ctx_handle k ∷ []
        ]
      ]

  -- A key derivation context was obtained from a key derivation function.
  pub BothObtained : Type 0
  BothObtained =
      (h k : ℕ) × (openssl.fetched (c_string parameters.kdf) ≡ some h)
      × (openssl.created h ≡ some k)
      × (obtained ≡ Handle.kdf_handle h ∷ Handle.kdf_ctx_handle k ∷ [])

  -- A failure at whichever of the four steps.
  openssl_kdf_derive_failure :
      let (after, calls) = openssl_kdf_derive openssl inputs parameters result in
      after.success ≡ false
      → (freed calls ≡ obtained)
        × (thread_limit none calls ≡ some 0)
        × ((before : List Call) × (kdf : Option ℕ) × (kctx : Option ℕ) × (calls
              ≡ before
                ++ (Call.kdf_free kdf ∷ Call.kdf_ctx_free kctx ∷ Call.set_max_threads 0 ∷ []))
            × (after.message ≡ openssl.error_string before))
  unfolding openssl_kdf_derive
  openssl_kdf_derive_failure h = elim (Bool-cases (openssl.threads_set parameters.threads)) [
    | inl e ↦ elim (Option-cases (openssl.fetched (c_string parameters.kdf))) [
      | inl f ↦ rw (e, f) (refl, refl, (_, none, none, refl, refl))
      | inr (kdf, f) ↦ elim (Option-cases (openssl.created kdf)) [
        | inl g ↦ rw (e, f, g) (refl, refl, (_, some kdf, none, refl, refl))
        | inr (kctx, g) ↦
            elim (Bool-cases
              (openssl.derived kctx parameters.size (kdf_params openssl inputs parameters)
                result.hash).0) [
                  | inl d ↦ absurd (ground (arith, e, f, g, d))
                  | inr d ↦ rw (e, f, g, d) (refl, refl, (_, some kdf, some kctx, refl, refl))
                ]
      ]
    ]
    | inr e ↦ rw e (refl, refl, (_, none, none, refl, refl))
  ]

  -- A success.
  openssl_kdf_derive_success :
      let (after, calls) = openssl_kdf_derive openssl inputs parameters result in
      after.success ≡ true
      → BothObtained × (freed calls ≡ []) × (thread_limit none calls ≡ some parameters.threads)
  unfolding openssl_kdf_derive BothObtained
  openssl_kdf_derive_success h = elim (Bool-cases (openssl.threads_set parameters.threads)) [
    | inr e ↦ absurd (ground (arith, e))
    | inl e ↦ elim (Option-cases (openssl.fetched (c_string parameters.kdf))) [
      | inl f ↦ absurd (ground (arith, e, f))
      | inr (kdf, f) ↦ elim (Option-cases (openssl.created kdf)) [
        | inl g ↦ absurd (ground (arith, e, f, g))
        | inr (kctx, g) ↦
            elim (Bool-cases
              (openssl.derived kctx parameters.size (kdf_params openssl inputs parameters)
                result.hash).0) [
                  | inl d ↦ rw (e, f, g, d) ((kdf, kctx, refl, g, refl), refl, refl)
                  | inr d ↦ absurd (ground (arith, e, f, g, d))
                ]
      ]
    ]
  ]

  -- A derivation that fails, at whichever of its four steps, has freed each handle it obtained once,
  -- has put the limit on threads back to zero, and has OpenSSL's error text in its result. One that
  -- succeeds frees neither of its two handles and leaves the limit on threads as it set it.
  pub openssl_kdf_derive_lem :
      let (after, calls) = openssl_kdf_derive openssl inputs parameters result in
      ((after.success ≡ true)
        × BothObtained
        × (freed calls ≡ [])
        × (thread_limit none calls ≡ some parameters.threads))
      ⊎ ((after.success ≡ false)
          × (freed calls ≡ obtained)
          × (thread_limit none calls ≡ some 0)
          × ((before : List Call) × (kdf : Option ℕ) × (kctx : Option ℕ) × (calls
                ≡ before
                  ++ (Call.kdf_free kdf ∷ Call.kdf_ctx_free kctx ∷ Call.set_max_threads 0 ∷ []))
              × (after.message ≡ openssl.error_string before)))
  openssl_kdf_derive_lem =
      elim (Bool-cases (openssl_kdf_derive openssl inputs parameters result).0.success) [
        | inl h ↦ let (a, b, c) = openssl_kdf_derive_success h in inl (h, a, b, c)
        | inr h ↦ let (a, b, c) = openssl_kdf_derive_failure h in inr (h, a, b, c)
      ]
