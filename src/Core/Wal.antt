-- ===== src/Core/Wal.antt =====
-- pkg/core/index_shards_wal.go: `ConsumeWAL`, which writes the entries of a shard's log to its second
-- layer shards, and `Rollback`, which is run when the log is opened. Its redo log has the run of
-- entries that is being written, and the last one that was. The numbers of entries start at 1 and
-- do not reach 2 ^ 64.
pub mod Flushing
pub mod Committed
pub mod Undoing
pub mod Rollback
use zincsearch.Prelude.{
  ℕ, zero, suc, ◌+◌, ◌-◌, ◌%◌, ◌^◌, List, [], Bool, true, false, ◌&&◌, ltb, leb, ◌==◌,
  if◌then◌else◌, Result, ok, err, [], ◌>>=◌, [], [], [], [], [],
}
use zincsearch.Core.Engine.{Engine, CoreErr, not_found, LogEntry}
use zincsearch.Core.Shards.{check_shards}
use zincsearch.Core.Merge.{
  MergeDocs, RangeOrder, add_document, max_shard_len, reset, write_to, undo,
}

-- `writeRedoLog` and `readRedoLog`
pub record RedoLog : Type 1 where
  pub Log : Type 0
  pub write : ℕ → ℕ → ℕ → Log → Result CoreErr (Unit {0}) × Log
  pub read : ℕ → Log → Result CoreErr (ℕ × ℕ)

abbrev pub redo_action_read : ℕ
redo_action_read = 1

abbrev pub redo_action_write : ℕ
redo_action_write = 2

abbrev pub max_batch_size : ℕ
max_batch_size = 10240

-- What `readRedoLog` gives where a missing record counts as zeros.
unfoldable pub or_zeros : Result CoreErr (ℕ × ℕ) → Result CoreErr (ℕ × ℕ)
or_zeros (ok p) = ok p
or_zeros (err not_found) = ok (0, 0)
or_zeros (err e) = err e

-- The settings, and whether the metadata could be put_batch.
pub record Settings : Type 0 where
  pub batch_size : ℕ
  pub max_size : ℕ
  pub is_stored : Bool

module _ (ε : Engine) (ρ : RedoLog) where
  open ε use {Index, Data, Wal, wal_read, wal_last, wal_truncate, unmarshal}

  pub record IndexShard : Type 0 where
    pub shards : List Index
    pub wal : Wal
    pub redo : ρ.Log

  -- what the loop of `ConsumeWAL` keeps: `startID`, `minID` and `docs`
  pub record Reading : Type 0 where
    pub start : ℕ
    pub next : ℕ
    pub docs : MergeDocs Data
    pub shard : IndexShard

  pub data Round : Type 0 where
    stopped : IndexShard → Round
    going : Reading → Round

  -- the entry of a number
  unfoldable pub entry_at : Wal → ℕ → Result CoreErr (LogEntry Data)
  entry_at w id = do bytes ← wal_read w id; unmarshal bytes

  module _ (range : RangeOrder Data) where
    -- `writeRedoLog`, `WriteTo` and `writeRedoLog`
    after_write_to :
        ℕ
        → ℕ
        → IndexShard
        → Result CoreErr (Unit {0}) × List Index
        → Result CoreErr (Unit {0}) × IndexShard
    after_write_to start id s (err e, shards) = (err e, record s { shards = shards })
    after_write_to start id s (ok done, shards) =
        let (r, redo) = ρ.write redo_action_write start id s.redo in
        (r, record s { shards = shards; redo = redo })

    begin_flush :
        ℕ
        → ℕ
        → MergeDocs Data
        → IndexShard
        → Result CoreErr (Unit {0}) × ρ.Log
        → Result CoreErr (Unit {0}) × IndexShard
    unfolding after_write_to write_to
    begin_flush start id docs s (err e, redo) = (err e, record s { redo = redo })
    begin_flush start id docs s (ok done, redo) =
        after_write_to start id (record s { redo = redo }) (write_to ε range docs s.shards)

    unfoldable pub flush_docs :
        ℕ → ℕ → MergeDocs Data → IndexShard → Result CoreErr (Unit {0}) × IndexShard
    unfolding begin_flush
    flush_docs start id docs s =
        begin_flush start id docs s (ρ.write redo_action_read start id s.redo)

    unfoldable pub after_flush : ℕ → MergeDocs Data → Result CoreErr (Unit {0}) × IndexShard → Round
    after_flush id docs (err e, s) = stopped s
    after_flush id docs (ok done, s) =
        going (record { start = id + 1; next = id + 1; docs = reset docs; shard = s })

    -- The rest of the loop's body, once the document is added.
    unfoldable pub flush_if_full : ℕ → ℕ → ℕ → MergeDocs Data → IndexShard → Round
    unfolding flush_docs after_flush
    flush_if_full size start id docs s =
        if leb size (max_shard_len docs)
        then after_flush id docs (flush_docs start id docs s)
        else going (record { start = start; next = id + 1; docs = docs; shard = s })

    -- the loop's body
    unfoldable pub take_entry : ℕ → Reading → Round
    unfolding entry_at flush_if_full
    take_entry size p = elim (entry_at p.shard.wal p.next) [
      | err e ↦ stopped p.shard
      | ok e ↦ flush_if_full size p.start p.next (add_document e p.docs) p.shard
    ]

    unfoldable pub take_entries : ℕ → ℕ → Reading → Round
    unfolding take_entry
    take_entries size zero p = going p
    take_entries size (suc rounds) p = elim (take_entry size p) [
      | stopped s ↦ stopped s
      | going p' ↦ take_entries size rounds p'
    ]

    -- what is written after the loop: `minID` is back at the last entry
    unfoldable pub flush_rest : Reading → Result CoreErr (Unit {0}) × IndexShard
    unfolding flush_docs
    flush_rest p =
        if ltb 0 (max_shard_len p.docs)
        then flush_docs p.start (p.next - 1) p.docs p.shard
        else (ok tt, p.shard)

    -- the end of `ConsumeWAL`, which returns true
    unfoldable pub clean_up : Settings → ℕ → IndexShard → IndexShard
    unfolding check_shards
    clean_up c id s =
        let (r, wal) = wal_truncate id s.wal in
        let s' = record s { wal = wal } in
        elim r [
          | err e ↦ s'
          | ok done ↦ record s' { shards = (check_shards ε c.max_size c.is_stored s.shards).1 }
        ]

    finish_flush : Settings → ℕ → Result CoreErr (Unit {0}) × IndexShard → Bool × IndexShard
    unfolding clean_up
    finish_flush c id (err e, s) = (false, s)
    finish_flush c id (ok done, s) = (true, clean_up c id s)

    unfoldable pub finish_consume : Settings → Round → Bool × IndexShard
    unfolding finish_flush flush_rest
    finish_consume c (stopped s) = (false, s)
    finish_consume c (going p) = finish_flush c (p.next - 1) (flush_rest p)

    -- `maxID` once the batch is limited; the difference is one of uint64
    unfoldable pub limited : ℕ → ℕ → ℕ
    limited min_id max_id =
        if ltb max_batch_size ((max_id + 2 ^ 64 - min_id) % 2 ^ 64)
        then min_id + max_batch_size
        else max_id

    unfoldable pub consume_from : Settings → ℕ → ℕ → IndexShard → Bool × IndexShard
    unfolding take_entries finish_consume limited
    consume_from c min_id max_id s =
        if min_id == max_id
        then (false, s)
        else finish_consume c (
            take_entries c.batch_size (limited min_id max_id - min_id)
              (record { start = min_id + 1; next = min_id + 1; docs = []; shard = s }))

    -- `ConsumeWAL`
    unfoldable pub consume_wal : Settings → IndexShard → Bool × IndexShard
    unfolding consume_from or_zeros
    consume_wal c s = elim (wal_last s.wal) [
      | err e ↦ (false, s)
      | ok max_id ↦ elim (or_zeros (ρ.read redo_action_write s.redo)) [
        | err e ↦ (false, s)
        | ok (start, min_id) ↦ consume_from c min_id max_id s
      ]
    ]

    -- the loop of `Rollback`
    unfoldable pub gather : ℕ → ℕ → Wal → MergeDocs Data → Result CoreErr (MergeDocs Data)
    unfolding entry_at
    gather zero id w docs = ok docs
    gather (suc rounds) id w docs =
        entry_at w id >>= λ e. gather rounds (id + 1) w (add_document e docs)

    undone :
        ℕ
        → IndexShard
        → Result CoreErr (Unit {0}) × List Index
        → Result CoreErr (Unit {0}) × IndexShard
    undone min_id s (err e, shards) = (err e, record s { shards = shards })
    undone min_id s (ok done, shards) =
        (ok tt, record s { shards = shards; wal = (wal_truncate (min_id - 1) s.wal).1 })

    unfoldable pub rollback_run : ℕ → ℕ → IndexShard → Result CoreErr (Unit {0}) × IndexShard
    unfolding gather undone undo
    rollback_run min_id max_id s = elim (gather (max_id + 1 - min_id) min_id s.wal []) [
      | err e ↦ (err e, s)
      | ok docs ↦ undone min_id s (undo ε range docs s.shards)
    ]

    -- `Rollback` of a run that was being written, if it is not the one that was written last
    unfoldable pub rollback_unless : ℕ × ℕ → IndexShard → Result CoreErr (Unit {0}) × IndexShard
    unfolding rollback_run or_zeros
    rollback_unless (min_id, max_id) s = elim (or_zeros (ρ.read redo_action_write s.redo)) [
      | err e ↦ (err e, s)
      | ok (write_min, write_max) ↦
          if min_id == write_min && max_id == write_max
          then (ok tt, s)
          else rollback_run min_id max_id s
    ]

    -- no record of a run: nothing to roll back
    no_run : CoreErr → IndexShard → Result CoreErr (Unit {0}) × IndexShard
    no_run not_found s = (ok tt, s)
    no_run e s = (err e, s)

    unfoldable pub rollback : IndexShard → Result CoreErr (Unit {0}) × IndexShard
    unfolding rollback_unless no_run
    rollback s = elim (ρ.read redo_action_read s.redo) [
      | err e ↦ no_run e s
      | ok run ↦ rollback_unless run s
    ]
