-- ===== src/Miniz/Readers.antt =====
-- lminiz.cpp, archives that are read: from a file through libuv, or from memory.
use evo_runtime.Common.{
  ℕ, ◌+◌, Bool, Option, none, some, List, [], ◌∷◌, if◌then◌else◌, ◌==◌, ◌%◌, ◌^◌,
}
use evo_runtime.Common.Bytes.{Bytes, codes, ◌>>=◌}
use evo_runtime.Common.Int.{ℤ, pos, to_unsigned}
use evo_runtime.Miniz.Values.{Message, LuaValue, Returned, file_index, optional}

pub record FileStat : Type 0 where
  pub version_made_by : ℕ
  pub version_needed : ℕ
  pub bit_flag : ℕ
  pub method : ℕ
  pub time : ℕ
  pub crc32 : ℕ
  pub comp_size : ℕ
  pub uncomp_size : ℕ
  pub internal_attr : ℕ
  pub external_attr : ℕ
  pub filename : Bytes
  pub comment : Bytes

-- The table that `lmz_reader_stat` fills, behind its first field.
abbrev pub stat_fields : FileStat → List (Bytes × LuaValue)
stat_fields stat =
    (codes "version_made_by", LuaValue.integer stat.version_made_by)
    ∷ (codes "version_needed", LuaValue.integer stat.version_needed)
    ∷ (codes "bit_flag", LuaValue.integer stat.bit_flag)
    ∷ (codes "method", LuaValue.integer stat.method)
    ∷ (codes "time", LuaValue.integer stat.time)
    ∷ (codes "crc32", LuaValue.integer stat.crc32)
    ∷ (codes "comp_size", LuaValue.integer stat.comp_size)
    ∷ (codes "uncomp_size", LuaValue.integer stat.uncomp_size)
    ∷ (codes "internal_attr", LuaValue.integer stat.internal_attr)
    ∷ (codes "external_attr", LuaValue.integer stat.external_attr)
    ∷ (codes "filename", LuaValue.text stat.filename)
    ∷ (codes "comment", LuaValue.text stat.comment)
    ∷ []

-- An archive that miniz has opened, by its answers. `locate_file` is `none` where it is negative,
-- and `extract_to_heap` returns its pointer's text and the length that it leaves.
pub record Archive : Type 0 where
  pub num_files : ℕ
  pub locate_file : Bytes → ℕ → Option ℕ
  pub file_stat : ℕ → Option FileStat
  pub get_filename : ℕ → ℕ → Option Bytes
  pub is_file_a_directory : ℕ → Bool
  pub extract_to_heap : ℕ → ℕ → Option Bytes × ℕ
  pub file_archive_start_ofs : ℕ

-- `lmz_file_t`. What no statement has assigned is `none`; a loop that was assigned may be null.
pub record LmzFile : Type 0 where
  pub archive : Option Archive
  pub loop : Option (Option ℕ)
  pub fd : Option ℤ

-- Calls of libuv and miniz.
pub data FileCall : Type 0 where
  fs_open : Bytes → FileCall
  fs_fstat : ℤ → FileCall
  fs_read : ℤ → ℕ → ℕ → FileCall
  fs_close : ℤ → FileCall
  req_cleanup reader_end : FileCall

-- `error_messages`, one text for each Lua state.
abbrev pub ErrorMessages : Type 0
ErrorMessages = ℕ → Option Bytes

abbrev pub set_message : ℕ → Option Bytes → ErrorMessages → ErrorMessages
set_message state text errors other = if state == other then text else errors other

-- Where miniz asks for n bytes at an offset of the archive.
unfoldable pub lmz_file_read : Archive → ℤ → ℕ → ℕ → FileCall
lmz_file_read archive fd file_ofs n =
    FileCall.fs_read fd n ((file_ofs + archive.file_archive_start_ofs) % 2 ^ 64)

unfoldable pub lmz_last_error : ℕ → ErrorMessages → Returned × ErrorMessages
lmz_last_error state errors = elim (errors state) [
  | none ↦ (Returned.values (LuaValue.nil ∷ []), errors)
  | some text ↦ (Returned.values (LuaValue.text text ∷ []), set_message state none errors)
]

-- The answers of libuv and miniz while an archive is opened.
pub record Opening : Type 0 where
  pub luv_loop : ℕ
  pub fs_open : Bytes → ℤ
  pub st_size : ℤ → ℕ
  pub reader_init : ℕ → ℕ → Option Archive
  pub reader_init_mem : Bytes → ℕ → Option Archive
  pub error_string : Bytes

-- What is returned, the userdata, the calls of libuv, and the error messages afterwards.
abbrev pub Opened : Type 0
Opened = Returned × LmzFile × List FileCall × ErrorMessages

abbrev pub opened :
    Option Archive
    → Message
    → Option (Option ℕ)
    → Option ℤ
    → List FileCall
    → ℕ
    → Bytes
    → ErrorMessages
    → Opened
opened none why loop fd calls state text errors = (
  Returned.values (LuaValue.nil ∷ LuaValue.message why ∷ []),
  record { archive = none; loop = loop; fd = fd },
  calls,
  set_message state (some text) errors,
)
opened (some archive) why loop fd calls state text errors = (
  Returned.values (LuaValue.userdata ∷ []),
  record { archive = some archive; loop = loop; fd = fd },
  calls,
  errors,
)

unfoldable pub lmz_reader_init : Opening → ℕ → Bytes → Option ℤ → ErrorMessages → Opened
lmz_reader_init env state path flags errors =
    let fd = env.fs_open path in
    opened (env.reader_init (env.st_size fd) (to_unsigned 32 (optional flags (pos 0))))
      (Message.reader_failed path env.error_string) (some (some env.luv_loop)) (some fd)
      (FileCall.fs_open path ∷ FileCall.fs_fstat fd ∷ []) state env.error_string errors

unfoldable pub lmz_reader_init_mem : Opening → ℕ → Bytes → Option ℤ → ErrorMessages → Opened
lmz_reader_init_mem env state buf flags errors =
    opened (env.reader_init_mem buf (to_unsigned 32 (optional flags (pos 0))))
      (Message.memory_reader_failed env.error_string) none none [] state env.error_string errors

-- Reading a field that was never assigned is a fault, `none`.
unfoldable pub lmz_reader_gc : LmzFile → Option (List FileCall)
lmz_reader_gc zip = zip.loop >>= λ loop. elim loop [
  | none ↦ some (FileCall.reader_end ∷ [])
  | some l ↦
      zip.fd >>= λ fd. some (FileCall.fs_close fd ∷ FileCall.req_cleanup ∷ FileCall.reader_end ∷ [])
]

module _ (zip : Archive) where
  unfoldable pub lmz_reader_get_num_files : Returned
  lmz_reader_get_num_files = Returned.values (LuaValue.integer zip.num_files ∷ [])

  unfoldable pub lmz_reader_locate_file : Bytes → Option ℤ → Returned
  lmz_reader_locate_file path flags =
      elim (zip.locate_file path (to_unsigned 32 (optional flags (pos 0)))) [
        | none ↦ Returned.values (LuaValue.nil ∷ LuaValue.message (Message.no_such_file path) ∷ [])
        | some index ↦ Returned.values (LuaValue.integer (index + 1) ∷ [])
      ]

  unfoldable pub lmz_reader_stat : ℤ → Returned
  unfolding file_index
  lmz_reader_stat index = elim (zip.file_stat (file_index index)) [
    | none ↦
        Returned.values
          (LuaValue.nil ∷ LuaValue.message (Message.invalid_index (file_index index)) ∷ [])
    | some stat ↦
        Returned.table ((codes "index", LuaValue.integer (file_index index)) ∷ stat_fields stat)
  ]

  -- `PATH_MAX` is a constant of the platform.
  unfoldable pub lmz_reader_get_filename : ℕ → ℤ → Returned
  unfolding file_index
  lmz_reader_get_filename path_max index = elim (zip.get_filename (file_index index) path_max) [
    | none ↦
        Returned.values
          (LuaValue.nil ∷ LuaValue.message (Message.invalid_index (file_index index)) ∷ [])
    | some name ↦ Returned.values (LuaValue.text name ∷ [])
  ]

  unfoldable pub lmz_reader_is_file_a_directory : ℤ → Returned
  unfolding file_index
  lmz_reader_is_file_a_directory index =
      Returned.values (LuaValue.boolean (zip.is_file_a_directory (file_index index)) ∷ [])

  -- The pointer is not tested.
  unfoldable pub lmz_reader_extract : ℤ → Option ℤ → Returned
  unfolding file_index
  lmz_reader_extract index flags =
      let (out_buf, out_len) =
        zip.extract_to_heap (file_index index) (to_unsigned 32 (optional flags (pos 0))) in
      elim out_buf [
        | none ↦ Returned.values (LuaValue.text_of_null out_len ∷ [])
        | some contents ↦ Returned.values (LuaValue.text contents ∷ [])
      ]

  unfoldable pub lmz_reader_get_offset : Returned
  lmz_reader_get_offset = Returned.values (LuaValue.integer zip.file_archive_start_ofs ∷ [])
