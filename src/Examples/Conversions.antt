-- ===== src/Examples/Conversions.antt =====
-- The theorems of iconv_ffi.cpp at one request.
use evo_runtime.Common.{◌≡◌, ◌⊎◌, refl, true, some, [], arith}
use evo_runtime.Common.Bytes.{codes}
use evo_runtime.Iconv.Requests.{Request, Library, sanity_check_buffer, iconv_convert}
use evo_runtime.Iconv.Outcomes.{NotOpened, LeftOpen, Closed, iconv_convert_lem}

abbrev lib : Library
lib = record {
  open_handle = λ calls. 3;
  convert = λ calls input output.
      (0, record { buffer = 12; remaining = 0 }, record { buffer = 22; remaining = 6 });
  close = λ calls. 0;
  errno = λ calls. 84;
  eilseq = 84;
  einval = 22;
  e2big = 7;
}

abbrev request : Request
request = record {
  input = record { charset = codes "UTF-8"; buffer = 10; length = 2; remaining = 2 };
  output = record { charset = codes "CP949"; buffer = 20; length = 8; remaining = 8 };
  handle = 0;
}

input_valid : sanity_check_buffer request.input ≡ true
unfolding sanity_check_buffer
input_valid = refl

output_valid : sanity_check_buffer request.output ≡ true
unfolding sanity_check_buffer
output_valid = refl

iconv_convert_lem_example :
    NotOpened lib request [] (iconv_convert lib (some request) [])
    ⊎ LeftOpen lib request [] (iconv_convert lib (some request) [])
    ⊎ Closed lib request [] (iconv_convert lib (some request) [])
iconv_convert_lem_example = iconv_convert_lem lib request [] input_valid output_valid (omega arith)
