-- ===== src/Core/Wal/Committed.antt =====
-- `ConsumeWAL`, whatever fails in it: the entries up to the one that the redo log names as written
-- are in the shards, in consecutive batches.
pub mod Gathering
pub mod Batch
pub mod Rounds
pub mod Consumed
use zincsearch.Prelude.Int.{ℤ}
use zincsearch.Prelude.{
  ℕ, ◌+◌, ◌<◌, ◌≡◌, ◌⊎◌, List, [], ◌∷◌, ◌++◌, Result, ok, err, length, refl, String, none,
}
use zincsearch.Core.Engine.{Engine, CoreErr, LogEntry}
use zincsearch.Core.Merge.{MergeDocs, RangeOrder, write_to, add_document, max_shard_len}
use zincsearch.Core.Merge.Gathered.{IsGroups, doc_in, add_all}
use zincsearch.Core.Wal.{
  RedoLog, IndexShard, Reading, Round, stopped, going, entry_at, or_zeros, redo_action_read,
  redo_action_write,
}
use zincsearch.Core.Wal.Flushing.{RedoLaws}

-- Nothing is gathered: a new map, or one after `Reset`.
abbrev pub Emptied : {D : Type 0} → MergeDocs D → Type 0
Emptied docs = IsGroups docs × ((u : ℤ) (k : String) → doc_in u k docs ≡ none)

module _ (ε : Engine) (ρ : RedoLog) (range : RangeOrder ε.Data) (w : ε.Wal) where
  open ε use {Index, Data}

  -- the entries of the log after the entry `b`
  unfoldable pub Entries : ℕ → List (LogEntry Data) → Type 0
  Entries b [] = Unit
  Entries b (e ∷ es) = (entry_at ε ρ w (b + 1) ≡ ok e) × Entries (b + 1) es

  -- The entries after `a` up to `b` were written to the shards `xs`, in batches that follow on each
  -- other, each of which was gathered from nothing and written without an error; `ys` is the result.
  pub data Batches (a : ℕ) (xs : List Index) : ℕ → List Index → Type 0 where
    none_yet : Batches a xs a xs
    one_more :
        {b c : ℕ} {ys zs : List Index} (es : List (LogEntry Data)) (docs : MergeDocs Data)
        → Batches a xs b ys
        → Emptied docs
        → Entries b es
        → c ≡ b + length es
        → write_to ε range (add_all es docs) ys ≡ (ok tt, zs)
        → Batches a xs c zs

  -- A batch after the entry `b` was begun on the shards `ys`, failed, and is in the redo log.
  pub record Interrupted (b : ℕ) (ys : List Index) (s : IndexShard ε ρ) : Type 0 where
    pub es : List (LogEntry Data)
    pub docs : MergeDocs Data
    pub emptied : Emptied docs
    pub entries : Entries b es
    pub shards_are : s.shards ≡ (write_to ε range (add_all es docs) ys).1
    pub begun : ρ.read redo_action_read s.redo ≡ ok (b + 1, b + length es)

  -- the last entry that the redo log names as written
  abbrev pub CommittedAt : ρ.Log → ℕ → Type 0
  CommittedAt l c = (a : ℕ) × (or_zeros (ρ.read redo_action_write l) ≡ ok (a, c))

  module _ (redo_law : RedoLaws ρ) (a : ℕ) (xs : List Index) where
    -- A consumption that was stopped.
    pub record Left (s : IndexShard ε ρ) : Type 0 where
      pub upto : ℕ
      pub mid : List Index
      pub batches : Batches a xs upto mid
      pub committed : CommittedAt s.redo upto
      pub shards_are : (s.shards ≡ mid) ⊎ Interrupted upto mid s
      pub same_wal : s.wal ≡ w
      pub valid : redo_law.IsValid s.redo

    -- A consumption that goes on.
    pub record Going (p : Reading ε ρ) : Type 0 where
      pub upto : ℕ
      pub es : List (LogEntry Data)
      pub docs : MergeDocs Data
      pub starts : p.start ≡ upto + 1
      pub nexts : p.next ≡ upto + length es + 1
      pub gathered : p.docs ≡ add_all es docs
      pub emptied : Emptied docs
      pub entries : Entries upto es
      pub counted : (es ≡ []) ⊎ (0 < max_shard_len p.docs)
      pub batches : Batches a xs upto p.shard.shards
      pub committed : CommittedAt p.shard.redo upto
      pub same_wal : p.shard.wal ≡ w
      pub valid : redo_law.IsValid p.shard.redo
