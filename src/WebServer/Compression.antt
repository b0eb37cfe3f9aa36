-- ===== src/WebServer/Compression.antt =====
-- The names of the compression options in Runtime/Bindings/FFI/uws/uws_ffi.cpp. The values of the
-- options stand in uWebSockets: they are a parameter, a number for each name.
use Prim.Native.String.{String}
use evo_runtime.Common.{
  ℕ, ◌≡◌, ◌≢◌, refl, sym, ap, ◌∙◌, Option, none, some, List, [], ◌∷◌, ◌==◌, if◌then◌else◌, arith,
  All, Bool-cases, inl, inr, ==_iff,
}

abbrev pub compress_options_to_string_map : List String
compress_options_to_string_map =
    "DISABLED" ∷ "SHARED_COMPRESSOR" ∷ "SHARED_DECOMPRESSOR" ∷ "DEDICATED_DECOMPRESSOR_32KB"
    ∷ "DEDICATED_DECOMPRESSOR_16KB" ∷ "DEDICATED_DECOMPRESSOR_8KB" ∷ "DEDICATED_DECOMPRESSOR_4KB"
    ∷ "DEDICATED_DECOMPRESSOR_2KB" ∷ "DEDICATED_DECOMPRESSOR_1KB" ∷ "DEDICATED_DECOMPRESSOR_512B"
    ∷ "DEDICATED_COMPRESSOR_3KB" ∷ "DEDICATED_COMPRESSOR_4KB" ∷ "DEDICATED_COMPRESSOR_8KB"
    ∷ "DEDICATED_COMPRESSOR_16KB" ∷ "DEDICATED_COMPRESSOR_32KB" ∷ "DEDICATED_COMPRESSOR_64KB"
    ∷ "DEDICATED_COMPRESSOR_128KB" ∷ "DEDICATED_COMPRESSOR_256KB" ∷ []

-- A hash map keeps the first of two entries with one key.
unfoldable pub find_name : (String → ℕ) → ℕ → List String → Option String
find_name uws option [] = none
find_name uws option (name ∷ rest) =
    if uws name == option then some name else find_name uws option rest

unfoldable pub compress_options_to_string : (String → ℕ) → ℕ → String
compress_options_to_string uws option = elim (find_name uws option compress_options_to_string_map) [
  | some name ↦ name
  | none ↦ "UNKNOWN"
]

find_name-missing :
    (uws : String → ℕ) (option : ℕ) (l : List String)
    → All (λ name. uws name ≢ option) l
    → find_name uws option l ≡ none
unfolding find_name
find_name-missing uws option [] h = refl
find_name-missing uws option (name ∷ rest) h =
    ground (arith, h.0, find_name-missing uws option rest h.1)

-- Two options together, which are the value of none, have no name.
unknown_option :
    (uws : String → ℕ) (option : ℕ)
    → All (λ name. uws name ≢ option) compress_options_to_string_map
    → compress_options_to_string uws option ≡ "UNKNOWN"
unfolding compress_options_to_string
unknown_option uws option h =
    rw (find_name-missing uws option compress_options_to_string_map h, compress_options_to_string)

-- What is found has the value that was looked for.
find_name-value :
    (uws : String → ℕ) (option : ℕ) (l : List String) (name : String)
    → find_name uws option l ≡ some name
    → uws name ≡ option
unfolding find_name
find_name-value uws option [] name h = cc
find_name-value uws option (n ∷ rest) name h = elim (Bool-cases (uws n == option)) [
  | inl e ↦
      let same : n ≡ name = cc (rw (e, find_name) at h) in
      ap uws (sym same) ∙ (==_iff (uws n) option).0 e
  | inr e ↦ find_name-value uws option rest name (rw (e, find_name) at h)
]
