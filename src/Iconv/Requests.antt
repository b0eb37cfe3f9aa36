-- ===== src/Iconv/Requests.antt =====
-- Runtime/Bindings/FFI/iconv/iconv_ffi.cpp and iconv_exports.h: the conversion of one buffer, with
-- its descriptor. Descriptors and cursors are numbers, null is 0. The assumptions of the source are
-- compiled out, since the build defines NDEBUG. libiconv is not in the repository: `Library` holds
-- its answers.
use evo_runtime.Common.{
  ℕ, ◌-◌, ◌^◌, Bool, false, not, Option, none, some, List, [], ◌∷◌, ◌++◌, if◌then◌else◌, ltb, ◌==◌,
  min, get_elem?,
}
use evo_runtime.Common.Bytes.{Bytes, codes}
use evo_runtime.Common.Int.{ℤ, pos, negsuc}

pub data IconvResult : Type 0 where
  ok invalid_request invalid_descriptor invalid_input invalid_output : IconvResult
  conversion_failed incomplete_input writebuffer_full result_last : IconvResult

-- `ICONV_INVALID_HANDLE` and `ICONV_INVALID_SIZE`
abbrev pub size_max : ℕ
size_max = 2 ^ 64 - 1

pub record Memory : Type 0 where
  pub charset : Bytes
  pub buffer : ℕ
  pub length : ℕ
  pub remaining : ℕ

pub record Request : Type 0 where
  pub input : Memory
  pub output : Memory
  pub handle : ℕ

-- What is asked of libiconv.
pub data IconvCall : Type 0 where
  opens : (to from : Bytes) → IconvCall
  converts closes : (handle : ℕ) → IconvCall

-- A cursor and the bytes that it has left.
pub record Cursor : Type 0 where
  pub buffer : ℕ
  pub remaining : ℕ

-- The answers of libiconv, given all calls so far, and the values of errno that it documents.
pub record Library : Type 0 where
  pub open_handle : List IconvCall → ℕ
  pub convert : List IconvCall → Cursor → Cursor → ℕ × Cursor × Cursor
  pub close : List IconvCall → ℕ
  pub errno : List IconvCall → ℕ
  pub eilseq : ℕ
  pub einval : ℕ
  pub e2big : ℕ

unfoldable pub sanity_check_descriptor : ℕ → Bool
sanity_check_descriptor handle = not (handle == size_max)

unfoldable pub sanity_check_buffer : Memory → Bool
sanity_check_buffer workload =
    if workload.buffer == 0 then false else not (ltb workload.length workload.remaining)

unfoldable pub iconv_check_result : ℕ → Bool
unfolding sanity_check_descriptor
iconv_check_result handle = sanity_check_descriptor handle

abbrev pub error_strings : List Bytes
error_strings =
    codes "Success: Not an error"
    ∷ codes "Failed: Invalid conversion request"
    ∷ codes "Failed: Not a valid conversion descriptor"
    ∷ codes "Failed: The provided input buffer is invalid, uninitialized, or has been corrupted"
    ∷ codes "Failed: The provided output buffer is invalid, uninitialized, or has been corrupted"
    ∷ codes "Failed: An invalid multibyte sequence was encountered within the input"
    ∷ codes "Failed: The input ended prematurely or with an incomplete multibyte sequence"
    ∷ codes "Failed: The provided output buffer is too small to store the conversion result"
    ∷ codes "Undefined: This should never happen"
    ∷ []

-- The index of `ICONV_RESULT_LAST`; a status from Lua may be any number.
abbrev pub last_index : ℕ
last_index = 8

abbrev pub status_index : ℤ → ℕ
status_index (negsuc n) = last_index
status_index (pos n) = min n last_index

-- `none` where the table is read beyond its end.
unfoldable pub iconv_strerror : ℤ → Option Bytes
iconv_strerror status = get_elem? error_strings (status_index status)

abbrev pub cursor : Memory → Cursor
cursor m = record { buffer = m.buffer; remaining = m.remaining }

abbrev pub advance : Memory → Cursor → Memory
advance m c = record m { buffer = c.buffer; remaining = c.remaining }

module _ (lib : Library) where
  unfoldable pub iconv_check_errno : List IconvCall → IconvResult
  iconv_check_errno calls =
      let status = lib.errno calls in
      if status == lib.eilseq
      then IconvResult.conversion_failed
      else if status == lib.einval
      then IconvResult.incomplete_input
      else if status == lib.e2big
      then IconvResult.writebuffer_full
      else IconvResult.result_last

  unfoldable pub iconv_try_close : Option Request → List IconvCall → IconvResult × List IconvCall
  unfolding iconv_check_errno sanity_check_descriptor
  iconv_try_close none calls = (IconvResult.invalid_request, calls)
  iconv_try_close (some request) calls =
      if request.handle == 0
      then (IconvResult.invalid_descriptor, calls)
      else if not (sanity_check_descriptor request.handle)
      then (IconvResult.invalid_descriptor, calls)
      else let closed = calls ++ IconvCall.closes request.handle ∷ [] in
        if not (lib.close closed == 0)
        then (iconv_check_errno closed, closed)
        else (IconvResult.ok, closed)

  -- What `iconv_convert` does once it has a descriptor.
  unfoldable pub convert_opened : Request → List IconvCall → IconvResult × Request × List IconvCall
  unfolding iconv_try_close
  convert_opened request calls =
      let asked = calls ++ IconvCall.converts request.handle ∷ [] in
      let (size, input, output) =
        lib.convert asked (cursor request.input) (cursor request.output) in
      let moved : Request = record request {
        input = advance request.input input;
        output = advance request.output output;
      } in
      if size == size_max
      then (iconv_check_errno asked, moved, asked)
      else if not (sanity_check_descriptor moved.handle)
      then (iconv_check_errno asked, moved, asked)
      else let (result, closed) = iconv_try_close (some moved) asked in (result, moved, closed)

  unfoldable pub iconv_convert :
      Option Request → List IconvCall → IconvResult × Option Request × List IconvCall
  unfolding convert_opened
  iconv_convert none calls = (IconvResult.invalid_request, none, calls)
  iconv_convert (some request) calls =
      if not (sanity_check_buffer request.input)
      then (IconvResult.invalid_input, some request, calls)
      else if not (sanity_check_buffer request.output)
      then (IconvResult.invalid_output, some request, calls)
      else let asked = calls ++ IconvCall.opens request.output.charset request.input.charset ∷ [] in
        let opened : Request = record request { handle = lib.open_handle asked } in
        if not (sanity_check_descriptor opened.handle)
        then (iconv_check_errno asked, some opened, asked)
        else let (result, converted, done) = convert_opened opened asked in
          (result, some converted, done)
