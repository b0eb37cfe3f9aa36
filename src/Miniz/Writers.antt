-- ===== src/Miniz/Writers.antt =====
-- lminiz.cpp, archives that are written to memory.
use evo_runtime.Common.{ℕ, ◌*◌, Bool, Option, none, some, [], ◌∷◌, if◌then◌else◌, not}
use evo_runtime.Common.Bytes.{Bytes}
use evo_runtime.Common.Int.{ℤ, pos, to_unsigned}
use evo_runtime.Miniz.Values.{Message, LuaValue, Returned, file_index, optional}
use evo_runtime.Miniz.Readers.{Archive}

-- miniz's writer, over its own state of an archive.
pub record Writer (S : Type 0) : Type 0 where
  pub init_heap : ℕ → ℕ → Bool × S
  pub add_from_zip_reader : S → Archive → ℕ → Bool × S
  pub add_mem : S → Bytes → Bytes → ℕ → Bool × S
  pub finalize_heap_archive : S → Option Bytes × S
  pub end : S → S

module _ {S : Type 0} (writer : Writer S) where
  unfoldable pub lmz_writer_init : Option ℤ → Option ℤ → Returned × S
  lmz_writer_init size_to_reserve_at_beginning initial_allocation_size =
      let (ok, archive) =
        writer.init_heap (to_unsigned 64 (optional size_to_reserve_at_beginning (pos 0)))
          (to_unsigned 64 (optional initial_allocation_size (pos (128 * 1024)))) in
      (
        if not ok
            then Returned.raised Message.no_heap_writer
            else Returned.values (LuaValue.userdata ∷ []),
        archive,
      )

  unfoldable pub lmz_writer_gc : S → S
  lmz_writer_gc archive = writer.end archive

  unfoldable pub lmz_writer_add_from_zip_reader : S → Archive → ℤ → Returned × S
  unfolding file_index
  lmz_writer_add_from_zip_reader zip source index =
      let (ok, archive) = writer.add_from_zip_reader zip source (file_index index) in
      (if not ok then Returned.raised Message.copy_failed else Returned.values [], archive)

  unfoldable pub lmz_writer_add_mem : S → Bytes → Bytes → Option ℤ → Returned × S
  lmz_writer_add_mem zip path contents flags =
      let (ok, archive) =
        writer.add_mem zip path contents (to_unsigned 32 (optional flags (pos 0))) in
      (if not ok then Returned.raised Message.add_failed else Returned.values [], archive)

  unfoldable pub lmz_writer_finalize : S → Returned × S
  lmz_writer_finalize zip =
      let (contents, archive) = writer.finalize_heap_archive zip in
      (
        elim contents [
          | none ↦ Returned.raised Message.no_archive
          | some bytes ↦ Returned.values (LuaValue.text bytes ∷ [])
        ],
        archive,
      )
