-- ===== src/Examples/Archives.antt =====
-- The theorems on archives and compression, at an archive with one entry and a codec that stores
-- its text as it is.
use evo_runtime.Common.{
  ℕ, ◌≤◌, ◌<◌, ◌≡◌, refl, ap, true, false, some, none, [], ◌∷◌, ◌++◌, arith, length, take, drop,
  leb, if◌then◌else◌, le→leb,
}
use evo_runtime.Common.Bytes.{Bytes, codes}
use evo_runtime.Common.Int.{ℤ, pos, negsuc}
use evo_runtime.Miniz.Values.{LuaValue, Returned}
use evo_runtime.Miniz.Readers.{
  FileStat, stat_fields, Archive, FileCall, ErrorMessages, Opening, lmz_reader_init,
  lmz_reader_init_mem, lmz_reader_gc, lmz_reader_locate_file, lmz_reader_stat,
  lmz_reader_get_filename, lmz_reader_extract,
}
use evo_runtime.Miniz.Codec.{Status, is_buf_error, Miniz, lmz_compress, lmz_uncompress}
use evo_runtime.Miniz.Streams.{Round, Engine, LmzStream, lmz_inflator_deflator_impl}
use evo_runtime.Miniz.Growth.{lmz_uncompress_ends, lmz_uncompress-lmz_compress}
use evo_runtime.Miniz.Entries.{lmz_reader_locate_file_lem, lmz_reader_gc_lem}

abbrev stored : ℕ → Bytes → Status × Bytes
stored capacity text =
    if leb (length text) capacity then (Status.ok, text) else (Status.buf_error, [])

abbrev miniz : Miniz
miniz = record {
  default_compression = negsuc 0;
  best_compression = pos 9;
  error = λ status. none;
  compress_bound = λ n. n;
  compress2 = λ capacity text level. stored capacity text;
  uncompress = stored;
  decompress_mem_to_heap = λ text flags. (some text, length text);
  compress_mem_to_heap = λ text flags. (some text, length text);
  adler32 = λ adler buf. adler;
  crc32 = λ crc32 buf. crc32;
}

abbrev abc : Bytes
abc = codes "abc"

lmz_uncompress_ends_example :
    (result : Returned) × (lmz_uncompress miniz abc (some (pos 1)) ≡ some result)
lmz_uncompress_ends_example = lmz_uncompress_ends miniz abc (some (pos 1))

compressed : lmz_compress miniz abc none ≡ Returned.values (LuaValue.text abc ∷ [])
unfolding lmz_compress
compressed = refl

fits :
    (l : ℤ) (y : Bytes) (c : ℕ)
    → miniz.compress2 (miniz.compress_bound (length abc)) abc l ≡ (Status.ok, y)
    → length abc ≤ c
    → miniz.uncompress c y ≡ (Status.ok, abc)
fits l y c made h =
    let same : abc ≡ y = ap (λ p. p.1) made in rw (← same, le→leb (length abc) c h) refl

fails :
    (l : ℤ) (y : Bytes) (c : ℕ)
    → miniz.compress2 (miniz.compress_bound (length abc)) abc l ≡ (Status.ok, y)
    → c < length abc
    → is_buf_error (miniz.uncompress c y).0 ≡ true
fails l y c made h =
    let same : abc ≡ y = ap (λ p. p.1) made in
    let short : leb (length abc) c ≡ false = ground (arith, h) in rw (← same, short) refl

lmz_uncompress-lmz_compress_example :
    lmz_uncompress miniz abc (some (pos 1)) ≡ some (Returned.values (LuaValue.text abc ∷ []))
lmz_uncompress-lmz_compress_example =
    lmz_uncompress-lmz_compress miniz abc abc none 1 compressed fits fails (omega arith)
      (omega arith) (omega arith)

abbrev two_at_once : Bytes → ℕ → Round Bytes
two_at_once s flush = record { status = Status.ok; added = take 2 s; after = drop 2 s }

abbrev engine : Engine Bytes
engine = record {
  buffer_size = 2;
  deflate_init = λ level. (Status.ok, []);
  inflate_init = (Status.ok, []);
  deflate_end = λ s. [];
  inflate_end = λ s. [];
  feed = λ text s. s ++ text;
  inflate = two_at_once;
  deflate = two_at_once;
}

abbrev deflator : LmzStream Bytes
deflator = record { mode = 0; stream = [] }

-- Two bytes fill the first round's buffer, and the third byte comes with the second round.
three_bytes_in_two_rounds :
    lmz_inflator_deflator_impl miniz engine 2 deflator abc 0
    ≡ some (Returned.values (LuaValue.text abc ∷ []), deflator)
unfolding lmz_inflator_deflator_impl
three_bytes_in_two_rounds = refl

abbrev entry : FileStat
entry = record {
  version_made_by = 20;
  version_needed = 20;
  bit_flag = 0;
  method = 8;
  time = 1;
  crc32 = 5;
  comp_size = 3;
  uncomp_size = 3;
  internal_attr = 0;
  external_attr = 0;
  filename = codes "main.lua";
  comment = [];
}

abbrev archive : Archive
archive = record {
  num_files = 5;
  locate_file = λ path flags. some 4;
  file_stat = λ index. some entry;
  get_filename = λ index size. some (codes "main.lua");
  is_file_a_directory = λ index. false;
  extract_to_heap = λ index flags. (some abc, 3);
  file_archive_start_ofs = 100;
}

lmz_reader_locate_file_lem_example :
    (lmz_reader_locate_file archive (codes "main.lua") none
      ≡ Returned.values (LuaValue.integer 5 ∷ []))
    × (lmz_reader_get_filename archive 4096 (pos 5)
        ≡ Returned.values (LuaValue.text (codes "main.lua") ∷ []))
    × (lmz_reader_extract archive (pos 5) none ≡ Returned.values (LuaValue.text abc ∷ []))
    × (lmz_reader_stat archive (pos 5)
        ≡ Returned.table ((codes "index", LuaValue.integer 4) ∷ stat_fields entry))
lmz_reader_locate_file_lem_example =
    lmz_reader_locate_file_lem archive (codes "main.lua") (codes "main.lua") abc 4096 4 3 entry refl
      (omega arith) refl refl refl

abbrev opening : Opening
opening = record {
  luv_loop = 1;
  fs_open = λ path. pos 3;
  st_size = λ fd. 200;
  reader_init = λ size flags. some archive;
  reader_init_mem = λ buf flags. none;
  error_string = codes "not a ZIP archive";
}

abbrev no_errors : ErrorMessages
no_errors state = none

lmz_reader_gc_lem_example :
    (lmz_reader_gc (lmz_reader_init opening 1 (codes "a.zip") none no_errors).1
      ≡ some (FileCall.fs_close (pos 3) ∷ FileCall.req_cleanup ∷ FileCall.reader_end ∷ []))
    × (lmz_reader_gc (lmz_reader_init_mem opening 1 abc none no_errors).1 ≡ none)
lmz_reader_gc_lem_example = lmz_reader_gc_lem opening 1 (codes "a.zip") abc none no_errors
