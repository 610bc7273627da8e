-- ===== src/Core/Documents.antt =====
-- pkg/core/index_document.go: the operations on one document, which write an entry to the log of its
-- shard. Whether a document suits the mapping is `CheckDocument`'s answer, an argument here.
pub mod Origin
use zincsearch.Prelude.{
  ℕ, zero, suc, ◌+◌, String, List, [], ◌∷◌, Bool, true, false, ◌&&◌, Option, none, some, Result, ok,
  err, if◌then◌else◌,
}
use zincsearch.Prelude.Int.{ℤ, pos, negsuc}
use zincsearch.Core.Engine.{Engine, Action, insert, update, delete, CoreErr, id_not_found, LogEntry}
use zincsearch.Core.Shards.{need_latest, need_update}
use zincsearch.Core.Wal.{RedoLog, IndexShard}

module _ (ε : Engine) (ρ : RedoLog) where
  open ε use {Index, Content, Data, Wal, found, marshal, wal_write}

  is_found : List Content → Bool
  is_found [] = false
  is_found (c ∷ cs) = true

  -- the second layer shards whose search finds the id
  unfoldable pub hits : String → ℕ → List Index → List ℕ
  unfolding is_found
  hits k n [] = []
  hits k n (x ∷ xs) = if is_found (found k x) then n ∷ hits k (n + 1) xs else hits k (n + 1) xs

  -- `FindShardByDocID`: `pick` is the shard whose search ended last, and is `none` also where all
  -- searches fail.
  unfoldable pub find_shard : (List ℕ → Option ℕ) → String → List Index → Result CoreErr ℕ
  unfolding hits
  find_shard pick k shards = elim (pick (hits k 0 shards)) [
    | none ↦ err id_not_found
    | some n ↦ ok n
  ]

  -- `shard.wal.Write(data)` of an entry
  unfoldable pub write_entry :
      LogEntry Data → IndexShard ε ρ → Result CoreErr (Unit {0}) × IndexShard ε ρ
  write_entry e s = let (r, wal) = wal_write (marshal e) s.wal in (r, record s { wal = wal })

  -- the end of `CheckDocument`, and the write
  unfoldable pub write_checked :
      Result CoreErr Data
      → String
      → Bool
      → ℤ
      → IndexShard ε ρ
      → Result CoreErr (Unit {0}) × IndexShard ε ρ
  unfolding write_entry
  write_checked (err e) k is_update shard s = (err e, s)
  write_checked (ok fields) k is_update shard s =
      write_entry
        (record {
          action = if is_update then update else insert;
          doc_id = k;
          shard = shard;
          fields = fields;
        })
        s

  -- `CreateDocument`
  unfoldable pub create_document :
      Result CoreErr Data
      → String
      → Bool
      → IndexShard ε ρ
      → Result CoreErr (Unit {0}) × IndexShard ε ρ
  unfolding write_checked
  create_document checked k is_update s =
      write_checked checked k is_update (if is_update then need_update else need_latest) s

  is_id_not_found : CoreErr → Bool
  is_id_not_found id_not_found = true
  is_id_not_found e = false

  -- `UpdateDocument`, from the search on
  unfoldable pub update_found :
      Result CoreErr ℕ
      → Result CoreErr Data
      → String
      → Bool
      → IndexShard ε ρ
      → Result CoreErr (Unit {0}) × IndexShard ε ρ
  unfolding write_checked is_id_not_found
  update_found (ok n) checked k may_insert s = write_checked checked k true (pos n) s
  update_found (err e) checked k may_insert s =
      if may_insert && is_id_not_found e
      then write_checked checked k false need_latest s
      else (err e, s)

  unfoldable pub update_document :
      (List ℕ → Option ℕ)
      → Result CoreErr Data
      → String
      → Bool
      → IndexShard ε ρ
      → Result CoreErr (Unit {0}) × IndexShard ε ρ
  unfolding update_found find_shard
  update_document pick checked k may_insert s =
      update_found (find_shard pick k s.shards) checked k may_insert s

  -- `DeleteDocument`; the entry has no fields but its own.
  unfoldable pub delete_found :
      Result CoreErr ℕ → Data → String → IndexShard ε ρ → Result CoreErr (Unit {0}) × IndexShard ε ρ
  unfolding write_entry
  delete_found (err e) no_fields k s = (err e, s)
  delete_found (ok n) no_fields k s =
      write_entry (record { action = delete; doc_id = k; shard = pos n; fields = no_fields }) s

  unfoldable pub delete_document :
      (List ℕ → Option ℕ)
      → Data
      → String
      → IndexShard ε ρ
      → Result CoreErr (Unit {0}) × IndexShard ε ρ
  unfolding delete_found find_shard
  delete_document pick no_fields k s = delete_found (find_shard pick k s.shards) no_fields k s
