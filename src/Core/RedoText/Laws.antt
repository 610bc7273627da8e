-- ===== src/Core/RedoText/Laws.antt =====
-- The records in the redo log keep what the shard relies on.
use zincsearch.Prelude.{ℕ, Bool, ok, ◌<◌, ◌^◌, ◌≡◌, arith, ap, ◌∙◌, inl, inr}
use zincsearch.Redo
use zincsearch.Redo.WellFormed.{IsLog}
use zincsearch.Redo.Reading.{Reads, write-Reads}
use zincsearch.Core.Wal.Flushing.{RedoLaws}
use zincsearch.Core.RedoText.{redo_text, read_record, write_record, redo_file, of_redo}
use zincsearch.Core.RedoText.Numerals.{parse-redo_text, length-redo_text}

module _ (written synced : Bool) where
  -- The text of a record fits.
  record-Reads :
      (o a b : ℕ) (l : Redo.Log)
      → IsLog l
      → o < 2 ^ 64
      → Reads l (write_record written synced o a b l).1 o (redo_text a b)
  unfolding write_record
  record-Reads o a b l w small =
      let fits = length-redo_text a b in
      elim (write-Reads written synced l o (redo_text a b) w small) [
        | inl (short, r) ↦ r
        | inr (long, refused) ↦ absurd (omega (arith, long, fits))
      ]

  read-write_record :
      (o a b : ℕ) (l : Redo.Log)
      → IsLog l
      → o < 2 ^ 64
      → a < 2 ^ 64
      → b < 2 ^ 64
      → read_record (Redo.read (write_record written synced o a b l).1 o) ≡ ok (a, b)
  unfolding read_record of_redo
  read-write_record o a b l w ho ha hb =
      ap read_record (record-Reads o a b l w ho).own ∙ parse-redo_text a b ha hb

  -- The redo log of pkg/wal/redo, with the texts of `writeRedoLog` and `parseRedoLog`, promises what
  -- `ConsumeWAL` and `Rollback` rely on: the last record that was written for an option is read, also
  -- where the file did not take it, and writing a record leaves those of the other options.
  pub redo_file-RedoLaws : RedoLaws (redo_file written synced)
  redo_file-RedoLaws = record {
    IsValid = IsLog;
    write-IsValid = λ o a b l ho ha hb w. (record-Reads o a b l w ho).log;
    read-write = λ o a b l ho ha hb w. read-write_record o a b l w ho ha hb;
    read-write_other =
        λ o p a b l ho ha hb w other. ap read_record ((record-Reads p a b l w ho).others o other);
  }
