-- ===== src/Iconv/Outcomes.antt =====
-- iconv_ffi.cpp: how a conversion ends, and what becomes of its descriptor.
use evo_runtime.Common.{
  ℕ, zero, suc, ◌≡◌, ◌≢◌, ◌<◌, ◌⊎◌, inl, inr, refl, true, Option, some, List, [], ◌∷◌, ◌++◌,
  if◌then◌else◌, ◌==◌, get_elem?, arith, Bool-cases, length,
}
use evo_runtime.Common.Bytes.{Bytes}
use evo_runtime.Common.Int.{ℤ, pos, negsuc}
use evo_runtime.Iconv.Requests.{
  IconvResult, size_max, Request, IconvCall, Library, cursor, sanity_check_descriptor,
  sanity_check_buffer, error_strings, status_index, iconv_strerror, iconv_check_errno,
  iconv_try_close, convert_opened, iconv_convert,
}

get_elem?_within :
    {A : Type 0} (xs : List A) (i : ℕ) → i < length xs → (x : A) × (get_elem? xs i ≡ some x)
get_elem?_within [] i h = absurd (omega (arith, h))
get_elem?_within (x ∷ xs) zero h = (x, refl)
get_elem?_within (x ∷ xs) (suc i) h = get_elem?_within xs i (omega (arith, h))

status_index-bound : (status : ℤ) → status_index status < length error_strings
status_index-bound (negsuc n) = omega arith
status_index-bound (pos n) = omega arith

-- Every status that Lua may pass, whether the enumeration has it or not, has a text in the table.
pub iconv_strerror_lem : (status : ℤ) → (text : Bytes) × (iconv_strerror status ≡ some text)
unfolding iconv_strerror
iconv_strerror_lem status =
    get_elem?_within error_strings (status_index status) (status_index-bound status)

module _ (lib : Library) (request : Request) (calls : List IconvCall) where
  abbrev pub opening : List IconvCall
  opening = calls ++ IconvCall.opens request.output.charset request.input.charset ∷ []

  abbrev pub converting : List IconvCall
  converting = opening ++ IconvCall.converts (lib.open_handle opening) ∷ []

  abbrev pub closing : List IconvCall
  closing = converting ++ IconvCall.closes (lib.open_handle opening) ∷ []

  -- What libiconv's conversion returns.
  abbrev pub converted : ℕ
  converted = (lib.convert converting (cursor request.input) (cursor request.output)).0

  -- No descriptor was opened.
  pub NotOpened : IconvResult × Option Request × List IconvCall → Type 0
  NotOpened (result, after, done) =
      (lib.open_handle opening ≡ size_max)
      × (result ≡ iconv_check_errno lib opening)
      × (done ≡ opening)

  -- The conversion failed and its descriptor is open: the request has it, and closing the request
  -- closes it.
  pub LeftOpen : IconvResult × Option Request × List IconvCall → Type 0
  LeftOpen (result, after, done) =
      (lib.open_handle opening ≢ size_max)
      × (converted ≡ size_max)
      × (result ≡ iconv_check_errno lib converting)
      × (done ≡ converting)
      × ((iconv_try_close lib after done).1 ≡ closing)

  -- The descriptor was opened, used and closed. The request still has it: closing the request would
  -- close it once more.
  pub Closed : IconvResult × Option Request × List IconvCall → Type 0
  Closed (result, after, done) =
      (lib.open_handle opening ≢ size_max)
      × (converted ≢ size_max)
      × (result
          ≡ (if lib.close closing == 0 then IconvResult.ok else iconv_check_errno lib closing))
      × (done ≡ closing)
      × ((iconv_try_close lib after done).1
          ≡ closing ++ IconvCall.closes (lib.open_handle opening) ∷ [])

  -- With two valid buffers a conversion ends in one of three ways: no descriptor could be opened;
  -- libiconv's conversion failed, and its descriptor is left open for the caller to close; or it
  -- did not fail, and the descriptor was opened, used and closed, but stays in the request, so that
  -- closing the request closes it again. This is where libiconv's descriptors are not null.
  pub iconv_convert_lem :
      sanity_check_buffer request.input ≡ true
      → sanity_check_buffer request.output ≡ true
      → lib.open_handle opening ≢ 0
      → NotOpened (iconv_convert lib (some request) calls)
        ⊎ LeftOpen (iconv_convert lib (some request) calls)
        ⊎ Closed (iconv_convert lib (some request) calls)
  unfolding iconv_convert convert_opened iconv_try_close sanity_check_descriptor NotOpened LeftOpen
      Closed
  iconv_convert_lem input output live = elim (Bool-cases (lib.open_handle opening == size_max)) [
    | inl e ↦ inl (ground arith)
    | inr e ↦
        elim (Bool-cases
          ((lib.convert converting (cursor request.input) (cursor request.output)).0 == size_max)) [
            | inl f ↦ inr (inl (ground arith))
            | inr f ↦ inr (inr (ground arith))
          ]
  ]
