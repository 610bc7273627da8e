-- ===== src/Core/Wal/Rollback.antt =====
-- `Rollback` of a batch that a crash interrupted, and what becomes of the documents that it inserted.
use zincsearch.Prelude.Int.{ℤ}
use zincsearch.Prelude.{
  ℕ, ◌+◌, ◌≡◌, List, [], ◌∷◌, ok, err, All, Result, Result-cases, length, String, sym, ◌-◌, inl,
  ok_injective, refl, Bool-cases, inr, subst, bind-ok, ◌==◌, zero, ◌&&◌, none, ◌≢◌, ◌++◌, ap, ◌∙◌,
}
use zincsearch.Core.Engine.{
  Engine, Laws, LogEntry, insert, CoreErr, not_found, id_not_found, second_shard_not_found,
  invalid_action, index_out_of_range, bad_redo, failed,
}
use zincsearch.Core.Shards.{need_latest}
use zincsearch.Core.Merge.{MergeDocs, RangeOrder, write_to, undo, add_document}
use zincsearch.Core.Merge.Gathered.{IsGroups, add_all, doc_in, entries_of, IsGroups-add_all}
use zincsearch.Core.Merge.Batches.{Known, settled}
use zincsearch.Core.Merge.Writing.{docs_at}
use zincsearch.Core.Merge.Settled.{IsRange, home}
use zincsearch.Core.Merge.LastAction.{last_entry}
use zincsearch.Core.Merge.Copies.{inserts_add}
use zincsearch.Core.Wal.{
  RedoLog, IndexShard, entry_at, gather, rollback, rollback_unless, rollback_run, undone, no_run,
  or_zeros, redo_action_read, redo_action_write, suc,
}
use zincsearch.Core.Wal.Undoing.{
  LogForLatest, ForLatest, gathered-NotInserted, undo_groups-docs, undo_groups-length,
}

module _ (ε : Engine) (law : Laws ε) (ρ : RedoLog) (range : RangeOrder ε.Data)
    (ranges : IsRange range) where
  open ε use {Index, Content, Data, Wal, build}

  -- What the loop of `Rollback` gathers is a run of the log's entries.
  gather-ForLatest :
      (rounds id : ℕ) (w : Wal) (docs all : MergeDocs Data)
      → LogForLatest ε ρ w
      → gather ε ρ range rounds id w docs ≡ ok all
      → (es : List (LogEntry Data)) × (all ≡ add_all es docs) × All ForLatest es
  unfolding gather add_all
  gather-ForLatest zero id w docs all f h = ([], sym (ok_injective h), tt)
  gather-ForLatest (suc rounds) id w docs all f h =
      let (e, there, h1) = bind-ok (entry_at ε ρ w id) _ h in
      let (es, is, fs) = gather-ForLatest rounds (id + 1) w (add_document e docs) all f h1 in
      (e ∷ es, is, (f id e there, fs))

  -- The shards hold the same documents.
  abbrev pub SameDocs : List Index → List Index → Type 0
  SameDocs xs ys =
      (length ys ≡ length xs) × ((k : String) (j : ℕ) → docs_at ε k j ys ≡ docs_at ε k j xs)

  SameDocs-refl : (xs : List Index) → SameDocs xs xs
  SameDocs-refl xs = (refl, λ k j. refl)

  undone-SameDocs :
      (id : ℕ) (s : IndexShard ε ρ) (p : Result CoreErr (Unit {0}) × List Index)
      → SameDocs s.shards p.1
      → SameDocs s.shards (undone ε ρ range id s p).1.shards
  unfolding undone
  undone-SameDocs id s (err e, xs) h = h
  undone-SameDocs id s (ok u, xs) h = h

  undo-SameDocs :
      (es : List (LogEntry Data)) (xs : List Index)
      → All ForLatest es
      → SameDocs xs (undo ε range (add_all es []) xs).1
  unfolding undo IsGroups
  undo-SameDocs es xs all = (
    undo_groups-length ε law range ranges (add_all es []) _ xs,
    undo_groups-docs ε law range ranges (add_all es []) _ xs (IsGroups-add_all es [] tt)
        (λ n k d h. gathered-NotInserted es n k d all h),
  )

  run-SameDocs :
      (lo hi : ℕ) (s : IndexShard ε ρ)
      → LogForLatest ε ρ s.wal
      → SameDocs s.shards (rollback_run ε ρ range lo hi s).1.shards
  unfolding rollback_run
  run-SameDocs lo hi s f = elim (Result-cases (gather ε ρ range (hi + 1 - lo) lo s.wal [])) [
    | inl (all, e) ↦
        let (es, is, fs) = gather-ForLatest (hi + 1 - lo) lo s.wal [] all f e in
        rw (e, rollback_run)
          (undone-SameDocs lo s (undo ε range all s.shards) (
            subst (λ w. SameDocs s.shards (undo ε range w s.shards).1) (sym is)
              (undo-SameDocs es s.shards fs)))
    | inr (x, e) ↦ rw (e, rollback_run) (SameDocs-refl s.shards)
  ]

  unless-SameDocs :
      (run : ℕ × ℕ) (s : IndexShard ε ρ)
      → LogForLatest ε ρ s.wal
      → SameDocs s.shards (rollback_unless ε ρ range run s).1.shards
  unfolding rollback_unless
  unless-SameDocs (lo, hi) s f = elim (Result-cases (or_zeros (ρ.read redo_action_write s.redo))) [
    | inl ((a, b), e) ↦ elim (Bool-cases (lo == a && hi == b)) [
      | inl same ↦ rw (e, rollback_unless) (rw same (SameDocs-refl s.shards))
      | inr differs ↦ rw (e, rollback_unless) (rw differs (run-SameDocs lo hi s f))
    ]
    | inr (x, e) ↦ rw (e, rollback_unless) (SameDocs-refl s.shards)
  ]

  no_run-same : (e : CoreErr) (s : IndexShard ε ρ) → (no_run ε ρ range e s).1 ≡ s
  unfolding no_run
  no_run-same not_found s = refl
  no_run-same id_not_found s = refl
  no_run-same second_shard_not_found s = refl
  no_run-same invalid_action s = refl
  no_run-same index_out_of_range s = refl
  no_run-same bad_redo s = refl
  no_run-same (failed t) s = refl

  pub rollback-SameDocs :
      (s : IndexShard ε ρ)
      → LogForLatest ε ρ s.wal
      → SameDocs s.shards (rollback ε ρ range s).1.shards
  unfolding rollback
  rollback-SameDocs s f = elim (Result-cases (ρ.read redo_action_read s.redo)) [
    | inl (run, e) ↦ rw (e, rollback) (unless-SameDocs run s f)
    | inr (x, e) ↦
        rw (e, rollback)
          (subst (λ t. SameDocs s.shards t.shards) (sym (no_run-same x s)) (SameDocs-refl s.shards))
  ]

  -- The log's entries that insert are for the latest shard, which is where `CreateDocument` and
  -- `UpdateDocument` send them. A batch was written to the shards, and the process stopped before its
  -- redo log said so. Then `Rollback` removes none of its documents, whatever the redo log says and
  -- whatever fails in it; and when the same entries are written again, as the next `ConsumeWAL`
  -- writes them, a document that they insert is there twice, beside those that were there before
  -- the crash.
  pub rollback_leaves_inserts :
      (s : IndexShard ε ρ) (es : List (LogEntry Data)) (w w' : MergeDocs Data) (k : String)
      (e : LogEntry Data) (rest : List (LogEntry Data)) (xs zs : List Index)
      → LogForLatest ε ρ s.wal
      → IsGroups w
      → ((u : ℤ) → doc_in u k w ≡ none)
      → IsGroups w'
      → ((u : ℤ) → doc_in u k w' ≡ none)
      → write_to ε range (add_all es w) xs ≡ (ok tt, s.shards)
      → write_to ε range (add_all es w') (rollback ε ρ range s).1.shards ≡ (ok tt, zs)
      → entries_of need_latest k es ≡ e ∷ rest
      → ((u : ℤ) → u ≢ need_latest → entries_of u k es ≡ [])
      → e.action ≡ insert
      → Known (last_entry e rest).action
      → ((j : ℕ) (i : String)
          → docs_at ε i j (rollback ε ρ range s).1.shards ≡ docs_at ε i j s.shards)
        × (c : Content) × (build k (last_entry e rest).fields ≡ ok c)
        × (docs_at ε k (home need_latest (length xs)) zs
            ≡ (docs_at ε k (home need_latest (length xs)) xs
                ++ settled (last_entry e rest).action c)
              ++ settled (last_entry e rest).action c)
  rollback_leaves_inserts s es w w' k e rest xs zs f g empty g' empty' h h' mine only first known =
      let (c, built, len, added) =
        inserts_add ε law range ranges es w k need_latest e rest xs s.shards g empty h mine only
          first known in
      let (c', built', len', added') =
        inserts_add ε law range ranges es w' k need_latest e rest _ zs g' empty' h' mine only first
          known in
      let same = rollback-SameDocs s f in
      let lengths = same.0 ∙ len in
      (
        λ j i. same.1 i j,
        c,
        built,
        twice (length xs) _ c c' (ok_injective (sym built' ∙ built)) lengths added' (same.1 k)
            added,
      )
    where
      twice :
          (n m : ℕ) (c c' : Content)
          → c' ≡ c
          → m ≡ n
          → docs_at ε k (home need_latest m) zs
            ≡ docs_at ε k (home need_latest m) (rollback ε ρ range s).1.shards
              ++ settled (last_entry e rest).action c'
          → ((j : ℕ) → docs_at ε k j (rollback ε ρ range s).1.shards ≡ docs_at ε k j s.shards)
          → docs_at ε k (home need_latest n) s.shards
            ≡ docs_at ε k (home need_latest n) xs ++ settled (last_entry e rest).action c
          → docs_at ε k (home need_latest n) zs
            ≡ (docs_at ε k (home need_latest n) xs ++ settled (last_entry e rest).action c)
              ++ settled (last_entry e rest).action c
      twice n m c c' cs ns second same one =
          let at_n =
            subst
              (λ i.
                docs_at ε k (home need_latest i) zs
                ≡ docs_at ε k (home need_latest i) (rollback ε ρ range s).1.shards
                  ++ settled (last_entry e rest).action c')
              ns second in
          cc (at_n, same (home need_latest n), one, ap (settled (last_entry e rest).action) cs)
