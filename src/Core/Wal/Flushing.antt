-- ===== src/Core/Wal/Flushing.antt =====
-- One batch of `ConsumeWAL`: what is written when one of its steps fails.
use zincsearch.Prelude.{ℕ, ◌^◌, ◌<◌, ◌≡◌, ◌≢◌, List, Result, ok, err, refl, arith}
use zincsearch.Core.Engine.{Engine, CoreErr}
use zincsearch.Core.Merge.{MergeDocs, RangeOrder, write_to}
use zincsearch.Core.Wal.{
  RedoLog, IndexShard, flush_docs, after_write_to, begin_flush, redo_action_read, redo_action_write,
}

-- What is relied on of the redo log: a record that is written is read again, also where writing it
-- to the file failed, and the others stay.
pub record RedoLaws (ρ : RedoLog) : Type 1 where
  pub IsValid : ρ.Log → Type 0
  pub write-IsValid :
      (o a b : ℕ) (l : ρ.Log)
      → o < 2 ^ 64
      → a < 2 ^ 64
      → b < 2 ^ 64
      → IsValid l
      → IsValid (ρ.write o a b l).1
  pub read-write :
      (o a b : ℕ) (l : ρ.Log)
      → o < 2 ^ 64
      → a < 2 ^ 64
      → b < 2 ^ 64
      → IsValid l
      → ρ.read o (ρ.write o a b l).1 ≡ ok (a, b)
  pub read-write_other :
      (o p a b : ℕ) (l : ρ.Log)
      → p < 2 ^ 64
      → a < 2 ^ 64
      → b < 2 ^ 64
      → IsValid l
      → o ≢ p
      → ρ.read o (ρ.write p a b l).1 ≡ ρ.read o l

module _ (ε : Engine) (ρ : RedoLog) (redo_law : RedoLaws ρ) (range : RangeOrder ε.Data) where
  open redo_law use {IsValid}

  -- how far a batch came
  pub data Flushed (start id : ℕ) (docs : MergeDocs ε.Data) (s : IndexShard ε ρ)
      (r : Result CoreErr (Unit {0})) (s' : IndexShard ε ρ) : Type 0 where
    not_begun :
        (e : CoreErr)
        → r ≡ err e
        → s'.shards ≡ s.shards
        → ρ.read redo_action_write s'.redo ≡ ρ.read redo_action_write s.redo
        → Flushed start id docs s r s'
    interrupted :
        (e : CoreErr)
        → r ≡ err e
        → write_to ε range docs s.shards ≡ (err e, s'.shards)
        → ρ.read redo_action_read s'.redo ≡ ok (start, id)
        → ρ.read redo_action_write s'.redo ≡ ρ.read redo_action_write s.redo
        → Flushed start id docs s r s'
    written :
        write_to ε range docs s.shards ≡ (ok tt, s'.shards)
        → ρ.read redo_action_write s'.redo ≡ ok (start, id)
        → Flushed start id docs s r s'

  -- the log is left alone
  pub record Stays (s s' : IndexShard ε ρ) : Type 0 where
    pub same_wal : s'.wal ≡ s.wal
    pub valid : IsValid s'.redo

  module _ (start id : ℕ) (a : start < 2 ^ 64) (b : id < 2 ^ 64) (docs : MergeDocs ε.Data) where
    after_write_to-Flushed :
        (s s' : IndexShard ε ρ) (p : Result CoreErr (Unit {0}) × List ε.Index)
        → write_to ε range docs s.shards ≡ p
        → s'.wal ≡ s.wal
        → IsValid s'.redo
        → ρ.read redo_action_read s'.redo ≡ ok (start, id)
        → ρ.read redo_action_write s'.redo ≡ ρ.read redo_action_write s.redo
        → Flushed start id docs s
            (after_write_to ε ρ range start id s' p).0
            (after_write_to ε ρ range start id s' p).1
          × Stays s (after_write_to ε ρ range start id s' p).1
    unfolding after_write_to
    after_write_to-Flushed s s' (err e, shards) wrote wal v reading writing =
        (Flushed.interrupted e refl wrote reading writing, record { same_wal = wal; valid = v })
    after_write_to-Flushed s s' (ok done, shards) wrote wal v reading writing = (
      Flushed.written wrote (redo_law.read-write 2 start id s'.redo (omega arith) a b v),
      record {
        same_wal = wal;
        valid = redo_law.write-IsValid 2 start id s'.redo (omega arith) a b v;
      },
    )

    begin_flush-Flushed :
        (s : IndexShard ε ρ) (p : Result CoreErr (Unit {0}) × ρ.Log)
        → IsValid p.1
        → ρ.read redo_action_read p.1 ≡ ok (start, id)
        → ρ.read redo_action_write p.1 ≡ ρ.read redo_action_write s.redo
        → Flushed start id docs s
            (begin_flush ε ρ range start id docs s p).0
            (begin_flush ε ρ range start id docs s p).1
          × Stays s (begin_flush ε ρ range start id docs s p).1
    unfolding begin_flush
    begin_flush-Flushed s (err e, redo) v reading writing =
        (Flushed.not_begun e refl refl writing, record { same_wal = refl; valid = v })
    begin_flush-Flushed s (ok done, redo) v reading writing =
        after_write_to-Flushed s (record s { redo = redo }) (write_to ε range docs s.shards) refl
          refl v reading writing

    pub flush_docs-Flushed :
        (s : IndexShard ε ρ)
        → IsValid s.redo
        → Flushed start id docs s
            (flush_docs ε ρ range start id docs s).0
            (flush_docs ε ρ range start id docs s).1
          × Stays s (flush_docs ε ρ range start id docs s).1
    unfolding flush_docs
    flush_docs-Flushed s v =
        begin_flush-Flushed s (ρ.write redo_action_read start id s.redo)
          (redo_law.write-IsValid 1 start id s.redo (omega arith) a b v)
          (redo_law.read-write 1 start id s.redo (omega arith) a b v)
          (redo_law.read-write_other 2 1 start id s.redo (omega arith) a b v (omega arith))
