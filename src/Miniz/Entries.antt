-- ===== src/Miniz/Entries.antt =====
-- Entries of an archive by name and by index, and what becomes of a reader and its last error.
use evo_runtime.Common.{
  ℕ, ◌+◌, ◌^◌, ◌<◌, ◌≡◌, ◌≢◌, refl, Option, none, some, List, [], ◌∷◌, arith, ◌∙◌,
}
use evo_runtime.Common.Bytes.{Bytes, codes}
use evo_runtime.Common.Int.{ℤ, pos, to_unsigned}
use evo_runtime.Miniz.Values.{Message, LuaValue, Returned, file_index, optional}
use evo_runtime.Miniz.Readers.{
  FileStat, stat_fields, Archive, FileCall, ErrorMessages, Opening, lmz_last_error, lmz_reader_init,
  lmz_reader_init_mem, lmz_reader_gc, lmz_reader_locate_file, lmz_reader_stat,
  lmz_reader_get_filename, lmz_reader_extract, opened, set_message,
}

file_index-add : (index : ℕ) → index + 1 < 2 ^ 32 → file_index (pos (index + 1)) ≡ index
unfolding file_index
file_index-add index h = omega (arith, h)

-- The index that `locate_file` returns is the one by which the other functions find the same entry:
-- its name and its contents. The `index` that `stat` reports for it is one less.
pub lmz_reader_locate_file_lem :
    (zip : Archive) (path name contents : Bytes) (path_max index size : ℕ) (stat : FileStat)
    → zip.locate_file path 0 ≡ some index
    → index + 1 < 2 ^ 32
    → zip.get_filename index path_max ≡ some name
    → zip.extract_to_heap index 0 ≡ (some contents, size)
    → zip.file_stat index ≡ some stat
    → (lmz_reader_locate_file zip path none ≡ Returned.values (LuaValue.integer (index + 1) ∷ []))
      × (lmz_reader_get_filename zip path_max (pos (index + 1))
          ≡ Returned.values (LuaValue.text name ∷ []))
      × (lmz_reader_extract zip (pos (index + 1)) none
          ≡ Returned.values (LuaValue.text contents ∷ []))
      × (lmz_reader_stat zip (pos (index + 1))
          ≡ Returned.table ((codes "index", LuaValue.integer index) ∷ stat_fields stat))
unfolding lmz_reader_locate_file lmz_reader_get_filename lmz_reader_extract lmz_reader_stat
lmz_reader_locate_file_lem zip path name contents path_max index size stat located small named
      extracted known =
    (
      ground (arith, located),
      ground (arith, file_index-add index small),
      ground (arith, file_index-add index small),
      ground (arith, file_index-add index small),
    )

lmz_last_error-some :
    (state : ℕ) (text : Bytes) (errors : ErrorMessages)
    → errors state ≡ some text
    → lmz_last_error state errors
      ≡ (Returned.values (LuaValue.text text ∷ []), set_message state none errors)
unfolding lmz_last_error
lmz_last_error-some state text errors e = rw (e, lmz_last_error) refl

lmz_last_error_value :
    (state : ℕ) (a b : ErrorMessages)
    → a state ≡ b state
    → (lmz_last_error state a).0 ≡ (lmz_last_error state b).0
unfolding lmz_last_error
lmz_last_error_value state a b e = ground (arith, e)

set_message-same :
    (state : ℕ) (text : Option Bytes) (errors : ErrorMessages)
    → set_message state text errors state ≡ text
set_message-same state text errors = ground arith

set_message-other :
    (state other : ℕ) (text : Option Bytes) (errors : ErrorMessages)
    → state ≢ other
    → set_message state text errors other ≡ errors other
set_message-other state other text errors h = ground (arith, h)

-- When an archive in memory cannot be opened, the reason is kept for the Lua state that asked:
-- `last_error` returns it there once and then nil, and other states have the error they had before.
pub lmz_last_error-lmz_reader_init_mem :
    (env : Opening) (state other : ℕ) (buf : Bytes) (flags : Option ℤ) (errors : ErrorMessages)
    → env.reader_init_mem buf (to_unsigned 32 (optional flags (pos 0))) ≡ none
    → state ≢ other
    → let (_, _, _, failed) = lmz_reader_init_mem env state buf flags errors in
      let (first, read) = lmz_last_error state failed in
      (first ≡ Returned.values (LuaValue.text env.error_string ∷ []))
      × ((lmz_last_error state read).0 ≡ Returned.values (LuaValue.nil ∷ []))
      × ((lmz_last_error other read).0 ≡ (lmz_last_error other errors).0)
unfolding lmz_reader_init_mem lmz_last_error
lmz_last_error-lmz_reader_init_mem env state other buf flags errors e h =
    rw (e, read_once)
      (
        refl,
        lmz_last_error_value state (set_message state none failed) (λ _. none)
            (set_message-same state none failed),
        lmz_last_error_value other (set_message state none failed) errors (
            set_message-other state other none failed h
            ∙ set_message-other state other (some env.error_string) errors h),
      )
  where
    failed : ErrorMessages
    failed = set_message state (some env.error_string) errors

    read_once :
        lmz_last_error state failed
        ≡ (Returned.values (LuaValue.text env.error_string ∷ []), set_message state none failed)
    read_once =
        lmz_last_error-some state env.error_string failed
          (set_message-same state (some env.error_string) errors)

module _ (why : Message) where
  gc-opened :
      (o : Option Archive) (loop : ℕ) (fd : ℤ) (calls : List FileCall) (state : ℕ) (text : Bytes)
      (errors : ErrorMessages)
      → lmz_reader_gc (opened o why (some (some loop)) (some fd) calls state text errors).1
        ≡ some (FileCall.fs_close fd ∷ FileCall.req_cleanup ∷ FileCall.reader_end ∷ [])
  unfolding lmz_reader_gc
  gc-opened none loop fd calls state text errors = refl
  gc-opened (some a) loop fd calls state text errors = refl

  gc-opened_mem :
      (o : Option Archive) (calls : List FileCall) (state : ℕ) (text : Bytes)
      (errors : ErrorMessages)
      → lmz_reader_gc (opened o why none none calls state text errors).1 ≡ none
  unfolding lmz_reader_gc
  gc-opened_mem none calls state text errors = refl
  gc-opened_mem (some a) calls state text errors = refl

-- Collecting a reader of a file closes that file and ends the archive. Collecting a reader from
-- memory reads the pointer to the event loop, which nothing has assigned.
pub lmz_reader_gc_lem :
    (env : Opening) (state : ℕ) (path buf : Bytes) (flags : Option ℤ) (errors : ErrorMessages)
    → (lmz_reader_gc (lmz_reader_init env state path flags errors).1
        ≡ some (
            FileCall.fs_close (env.fs_open path) ∷ FileCall.req_cleanup ∷ FileCall.reader_end ∷ []))
      × (lmz_reader_gc (lmz_reader_init_mem env state buf flags errors).1 ≡ none)
unfolding lmz_reader_gc lmz_reader_init lmz_reader_init_mem
lmz_reader_gc_lem env state path buf flags errors = (
  gc-opened _
      (env.reader_init (env.st_size (env.fs_open path)) (to_unsigned 32 (optional flags (pos 0))))
      env.luv_loop (env.fs_open path) _ state env.error_string errors,
  gc-opened_mem _ (env.reader_init_mem buf (to_unsigned 32 (optional flags (pos 0)))) _ state
      env.error_string errors,
)
