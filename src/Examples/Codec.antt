-- ===== src/Examples/Codec.antt =====
-- The theorems on Base64 and on key derivation, at short texts and a library that fails at its last
-- step.
use evo_runtime.Common.{
  ℕ, suc, ◌<◌, ◌≤◌, ◌≡◌, ◌⊎◌, true, false, Option, some, none, List, [], ◌∷◌, ◌++◌, arith, length,
  drop,
}
use evo_runtime.Common.Bytes.{Bytes, codes}
use evo_runtime.Crypto.Base64.{invalid_size, argon2_to_base64, argon2_from_base64}
use evo_runtime.Crypto.Reference.{IsBytes, sextets, chars_of, argon2_to_base64_lem}
use evo_runtime.Crypto.RoundTrip.{argon2_from_base64-argon2_to_base64}
use evo_runtime.Crypto.Bounds.{argon2_from_base64_bounds}
use evo_runtime.Crypto.Kdf.{
  KdfInput, KdfParameters, KdfResult, Call, Openssl, openssl_kdf_derive, obtained, BothObtained,
  freed, thread_limit, openssl_kdf_derive_lem,
}

abbrev salt : Bytes
salt = 1 ∷ 2 ∷ 3 ∷ 255 ∷ []

abbrev ten : Bytes
ten = 9 ∷ 9 ∷ 9 ∷ 9 ∷ 9 ∷ 9 ∷ 9 ∷ 9 ∷ 9 ∷ 9 ∷ []

salt-IsBytes : IsBytes salt
salt-IsBytes = (omega arith, (omega arith, (omega arith, (omega arith, tt))))

argon2_to_base64_lem_example :
    let chars = chars_of (sextets salt) in
    ((8 ≤ length chars) × (argon2_to_base64 ten 8 salt ≡ some (invalid_size, ten)))
    ⊎ ((length chars < 8)
        × (argon2_to_base64 ten 8 salt
            ≡ some (length chars, (chars ++ 0 ∷ []) ++ drop (suc (length chars)) ten)))
argon2_to_base64_lem_example =
    argon2_to_base64_lem ten salt 8 salt-IsBytes (omega arith) (omega arith)

fits_in_eight : length (sextets salt) < 8
unfolding sextets
fits_in_eight = omega arith

argon2_from_base64-argon2_to_base64_example :
    (encoded : Bytes) × (argon2_to_base64 ten 8 salt ≡ some (length (sextets salt), encoded))
    × (argon2_from_base64 ten 4 encoded ≡ some (4, salt ++ drop 4 ten))
argon2_from_base64-argon2_to_base64_example =
    argon2_from_base64-argon2_to_base64 ten salt ten 8 4 salt-IsBytes (omega arith) (omega arith)
      fits_in_eight (omega arith) (omega arith)

argon2_from_base64_bounds_example :
    (n : ℕ) × (buffer : Bytes) × (argon2_from_base64 ten 2 (codes "AQID//8" ++ 0 ∷ [])
      ≡ some (n, buffer))
    × (drop 2 buffer ≡ drop 2 ten)
    × (length buffer ≡ length ten)
argon2_from_base64_bounds_example =
    argon2_from_base64_bounds ten 2 (codes "AQID//8") [] (omega arith)

abbrev inputs : KdfInput
inputs = record { password = codes "secret"; salt = salt }

abbrev parameters : KdfParameters
parameters = record {
  kdf = codes "ARGON2ID";
  version = 19;
  kilobytes = 64;
  threads = 2;
  lanes = 2;
  size = 10;
  iterations = 3;
}

abbrev fails_to_derive : Openssl
fails_to_derive = record {
  password_key = codes "pass";
  salt_key = codes "salt";
  version_key = codes "version";
  iter_key = codes "iter";
  threads_key = codes "threads";
  lanes_key = codes "lanes";
  memcost_key = codes "memcost";
  threads_set = λ n. true;
  fetched = λ name. some 1;
  created = λ kdf. some 2;
  derived = λ kctx size params hash. (false, hash);
  error_string = λ calls. codes "failed";
}

abbrev untouched : KdfResult
untouched = record { success = true; hash = ten; message = [] }

openssl_kdf_derive_lem_example :
    let (after, calls) = openssl_kdf_derive fails_to_derive inputs parameters untouched in
    ((after.success ≡ true)
      × BothObtained fails_to_derive inputs parameters untouched
      × (freed calls ≡ [])
      × (thread_limit none calls ≡ some 2))
    ⊎ ((after.success ≡ false)
        × (freed calls ≡ obtained fails_to_derive inputs parameters untouched)
        × (thread_limit none calls ≡ some 0)
        × ((before : List Call) × (kdf : Option ℕ) × (kctx : Option ℕ) × (calls
              ≡ before
                ++ (Call.kdf_free kdf ∷ Call.kdf_ctx_free kctx ∷ Call.set_max_threads 0 ∷ []))
            × (after.message ≡ fails_to_derive.error_string before)))
openssl_kdf_derive_lem_example = openssl_kdf_derive_lem fails_to_derive inputs parameters untouched
