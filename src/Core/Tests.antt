-- ===== src/Core/Tests.antt =====
-- Runs of the log's operations on an engine in memory.
use zincsearch.Core.RedoText.{redo_file}
use zincsearch.Core.RedoText.Laws.{redo_file-RedoLaws}
use zincsearch.Core.Wal.Flushing.{RedoLaws}
use zincsearch.Prelude.{
  ℕ, zero, suc, ◌≡◌, ◌≢◌, ◌++◌, String, List, [], ◌∷◌, ok, refl, length, arith, none, Result, false,
  true, All,
}
use zincsearch.Prelude.Int.{ℤ, pos}
use zincsearch.Dict
use zincsearch.Core.Engine.{LogEntry, insert, update, delete, Action, drops, CoreErr}
use zincsearch.Core.Shards.{need_latest, need_update}
use zincsearch.Core.Merge.{write_to, add_document, put_group, same_id, group_at, group_or_new}
use zincsearch.Core.Merge.Gathered.{add_all, entries_of, IsGroups, doc_in, same_id_iff}
use zincsearch.Core.Merge.Batches.{settled}
use zincsearch.Core.Merge.Writing.{docs_at}
use zincsearch.Core.Merge.Settled.{Placed, home}
use zincsearch.Core.Merge.LastAction.{last_action_decides, last_entry}
use zincsearch.Core.Wal.{or_zeros, IndexShard, Settings, consume_wal, rollback}
use zincsearch.Core.Wal.Undoing.{ForLatest, LogForLatest}
use zincsearch.Core.Wal.Committed.Consumed.{Consumed, consume_commits}
use zincsearch.Core.Wal.Rollback.{rollback_leaves_inserts}
use zincsearch.Core.Documents.{create_document, update_document, delete_document}
use zincsearch.Core.Documents.Origin.{documents-LogForLatest}
use zincsearch.Core.Memory.{
  memory, memory-Laws, memory-WalLaws, in_order, in_order-IsRange, records, records-RedoLaws,
  All-LogForLatest, kept, added, found_in, record_of, read_entry,
}

abbrev entry : Action → String → ℤ → ℕ → LogEntry ℕ
entry a k s d = record { action = a; doc_id = k; shard = s; fields = d }

abbrev log : List (LogEntry ℕ)
log =
    entry insert "a" need_latest 1
    ∷ entry insert "b" need_latest 2
    ∷ entry update "b" need_latest 3
    ∷ entry update "c" need_update 4
    ∷ entry delete "d" (pos 0) 0
    ∷ []

abbrev old : List (List (String × ℕ))
old = (("c", 9) ∷ ("d", 8) ∷ []) ∷ (("e", 7) ∷ []) ∷ []

abbrev new : List (List (String × ℕ))
new = [] ∷ (("e", 7) ∷ ("a", 1) ∷ ("b", 3) ∷ ("c", 4) ∷ []) ∷ []

batch_runs : write_to memory in_order (add_all log []) old ≡ (ok tt, new)
unfolding write_to add_all add_document put_group same_id group_at Dict.put Dict.get kept drops
    added
batch_runs = refl

only_latest : (u : ℤ) → u ≢ need_latest → entries_of u "b" log ≡ []
unfolding entries_of
only_latest u n = ground (arith, same_id_iff need_latest u, same_id_iff need_update u)

no_b : (j : ℕ) → docs_at memory "b" j old ≡ []
unfolding docs_at found_in
no_b zero = refl
no_b (suc zero) = refl
no_b (suc (suc j)) = refl

log_latest : All ForLatest log
log_latest = (λ i. refl, (λ i. refl, (λ i. refl, (λ i. cc i, (λ i. cc i, tt)))))

last_action_decides_example :
    (c : ℕ) × (◌≡◌ {A = Result CoreErr ℕ} (ok 3) (ok c))
    × (length new ≡ length old)
    × Placed memory memory-Laws "b" (home need_latest 2) (settled update c) new
unfolding entries_of same_id last_entry IsGroups doc_in group_or_new group_at Dict.get
last_action_decides_example =
    last_action_decides memory memory-Laws in_order in_order-IsRange log [] "b" need_latest
      (entry insert "b" need_latest 2) (entry update "b" need_latest 3 ∷ []) old new tt (λ u. refl)
      batch_runs refl only_latest tt (λ e j. no_b j) (λ e j n. no_b j)

abbrev shard : IndexShard memory records
shard = record { shards = old; wal = log; redo = [] }

abbrev settings : Settings
settings = record { batch_size = 2; max_size = 3; is_stored = true }

consume_commits_example :
    Consumed memory records records-RedoLaws in_order 0 5 shard
      (consume_wal memory records in_order settings shard)
unfolding record_of or_zeros
consume_commits_example =
    consume_commits memory records records-RedoLaws in_order settings shard 0 5 tt refl (0, refl)
      (omega arith) (omega arith)

redo_file-RedoLaws_example : RedoLaws (redo_file true true)
redo_file-RedoLaws_example = redo_file-RedoLaws true true

documents-LogForLatest_example :
    LogForLatest memory records (create_document memory records (ok 5) "a" false shard).1.wal
    × LogForLatest memory records
        (update_document memory records (λ l. none) (ok 5) "a" false shard).1.wal
    × LogForLatest memory records (delete_document memory records (λ l. none) 0 "a" shard).1.wal
documents-LogForLatest_example =
    documents-LogForLatest memory memory-WalLaws records shard (λ l. none) (ok 5) 0 "a" false
      (All-LogForLatest log log_latest)

abbrev crashed : IndexShard memory records
crashed = record { shards = new; wal = log; redo = (1, 1, 5) ∷ [] }

abbrev again : List (List (String × ℕ))
again = [] ∷ (("e", 7) ∷ ("a", 1) ∷ ("b", 3) ∷ ("a", 1) ∷ ("b", 3) ∷ ("c", 4) ∷ []) ∷ []

batch_runs_again :
    write_to memory in_order (add_all log []) (rollback memory records in_order crashed).1.shards
    ≡ (ok tt, again)
unfolding write_to add_all add_document put_group same_id group_at Dict.put Dict.get kept drops
    added rollback record_of read_entry
batch_runs_again = refl

rollback_leaves_inserts_example :
    ((j : ℕ) (i : String)
      → docs_at memory i j (rollback memory records in_order crashed).1.shards
        ≡ docs_at memory i j new)
    × (c : ℕ) × (◌≡◌ {A = Result CoreErr ℕ} (ok 3) (ok c))
    × (docs_at memory "b" (home need_latest 2) again
        ≡ (docs_at memory "b" (home need_latest 2) old ++ settled update c) ++ settled update c)
unfolding entries_of same_id last_entry IsGroups doc_in group_or_new group_at Dict.get
rollback_leaves_inserts_example =
    rollback_leaves_inserts memory memory-Laws records in_order in_order-IsRange crashed log [] []
      "b" (entry insert "b" need_latest 2) (entry update "b" need_latest 3 ∷ []) old again
      (All-LogForLatest log log_latest) tt (λ u. refl) tt (λ u. refl) batch_runs batch_runs_again
      refl only_latest refl tt
