-- ===== src/Core/Wal/Undoing.antt =====
-- What `Rollback` removes of an interrupted batch.
use zincsearch.Core.Merge.LastAction.{with_entries-first}
use zincsearch.Core.Merge.{put_writer, group_or_new}
use zincsearch.Core.Engine.{drops, adds}
use zincsearch.Prelude.{
  ◌&&◌, ℕ, ◌≡◌, ◌≢◌, List, [], ◌∷◌, Result, ok, err, refl, arith, some, none, String, All, sym,
  ok_injective, bind-ok, eq_refl, ◌∙◌, Bool-cases, str_eq, inl, subst, eq_iff, inr, Option-cases,
  Result-cases, ap, append-nil, get_elem?, set, ◌==◌, ==_iff, length,
}
use zincsearch.Prelude.Int.{ℤ, pos, negsuc}
use zincsearch.Core.Wal.{RedoLog, entry_at}
use zincsearch.Dict.{Dict}
use zincsearch.Dict
use zincsearch.Core.Engine.{
  Engine, Laws, CoreErr, Op, LogEntry, Action, insert, update, delete, other,
}
use zincsearch.Core.Shards.{need_latest, get_writer}
use zincsearch.Core.Merge.{
  MergeDocs, WalDocument, RangeOrder, undo_group, undo_shard, undo_groups, undo_ops, collect_undo,
  put_batch, group_at, same_id,
}
use zincsearch.Core.Merge.Gathered.{
  same_id_iff, IsMap, IsGroups, doc_in, entries_of, add_all, with_entries, doc_in-add_all,
}
use zincsearch.Core.Merge.Batches.{after_batch}
use zincsearch.Core.Merge.Writing.{
  docs_at, get_writer-there, batch_docs, docs_at-set_self, docs_at-set_other, length-set,
}
use zincsearch.Core.Merge.Settled.{IsRange, group_at-IsMap, doc_in-group}

-- The first entry of a document does not insert it.
abbrev pub NotInserted : List Action → Type 0
NotInserted [] = Unit
NotInserted (a ∷ rest) = a ≢ insert

-- Entries that insert are for the latest shard.
abbrev pub ForLatest : {D : Type 0} → LogEntry D → Type 0
ForLatest e = e.action ≡ insert → e.shard ≡ need_latest

entries_of-first :
    {D : Type 0} (n : ℕ) (k : String) (es : List (LogEntry D)) (e : LogEntry D)
    (rest : List (LogEntry D))
    → All ForLatest es
    → entries_of (pos n) k es ≡ e ∷ rest
    → e.action ≢ insert
unfolding entries_of
entries_of-first n k [] e rest all h = cc
entries_of-first n k (f ∷ es) e rest all h =
    elim (Bool-cases (same_id f.shard (pos n) && str_eq f.doc_id k)) [
      | inl mine ↦
          let f_is_e : f ≡ e = ground arith in
          let here : f.shard ≡ pos n = (same_id_iff f.shard (pos n)).0 (ground arith) in
          λ i. cc (sym here ∙ all.0 (ap (λ x. x.action) f_is_e ∙ i))
      | inr theirs ↦ entries_of-first n k es e rest all.1 (ground arith)
    ]

-- The entries of the log that insert are for the latest shard.
abbrev pub LogForLatest : (ε : Engine) (ρ : RedoLog) → ε.Wal → Type 0
LogForLatest ε ρ w = (id : ℕ) (e : LogEntry ε.Data) → entry_at ε ρ w id ≡ ok e → ForLatest e

-- So the documents that are gathered for a numbered shard are not inserted.
pub gathered-NotInserted :
    {D : Type 0} (es : List (LogEntry D)) (n : ℕ) (k : String) (d : WalDocument D)
    → All ForLatest es
    → doc_in (pos n) k (add_all es []) ≡ some d
    → NotInserted d.actions
unfolding doc_in group_or_new group_at Dict.get with_entries
gathered-NotInserted {D} es n k d all h = from (entries_of (pos n) k es) refl
  where
    merged : with_entries (entries_of (pos n) k es) none ≡ some d
    merged = sym (doc_in-add_all (pos n) k es []) ∙ h

    from : (l : List (LogEntry D)) → entries_of (pos n) k es ≡ l → NotInserted d.actions
    from [] q = cc (subst (λ l. with_entries l none ≡ some d) q merged)
    from (e ∷ rest) q =
        let (x, found, acts, last) = with_entries-first e rest in
        let x_is_d : x ≡ d = cc (sym found ∙ subst (λ l. with_entries l none ≡ some d) q merged) in
        subst (λ y. NotInserted y.actions) x_is_d
          (subst NotInserted (sym acts) (entries_of-first n k es e rest all q))

module _ (ε : Engine) (law : Laws ε) where
  open ε use {Index, Content, Data, build, batch, found}

  undo_ops-none :
      (k : String) (as' : List Action) (ops : List (Op Content))
      → NotInserted as'
      → undo_ops ε k as' ≡ ok ops
      → ops ≡ []
  unfolding undo_ops
  undo_ops-none k [] ops n h = cc
  undo_ops-none k (insert ∷ rest) ops n h = absurd (n refl)
  undo_ops-none k (update ∷ rest) ops n h = sym (ok_injective h)
  undo_ops-none k (delete ∷ rest) ops n h = sym (ok_injective h)
  undo_ops-none k (other s ∷ rest) ops n h = sym (ok_injective h)

  collect_undo-none :
      (docs : Dict (WalDocument Data)) (ops : List (Op Content))
      → IsMap docs
      → ((k : String) (d : WalDocument Data) → Dict.get docs k ≡ some d → NotInserted d.actions)
      → collect_undo ε docs ≡ ok ops
      → ops ≡ []
  unfolding IsMap Dict.get collect_undo
  collect_undo-none [] ops m n h = sym (ok_injective h)
  collect_undo-none ((k, d) ∷ docs) ops m n h =
      let (c, built, h1) = bind-ok (build d.doc_id d.fields) _ h in
      let (one, made, h2) = bind-ok (undo_ops ε d.doc_id d.actions) _ h1 in
      let (rest, more, h3) = bind-ok (collect_undo ε docs) _ h2 in
      let none_here = undo_ops-none d.doc_id d.actions one (n k d (rw (eq_refl k) refl)) made in
      let none_there = collect_undo-none docs rest m.2 (later n) more in
      sym (ok_injective h3) ∙ rw (none_here, none_there) refl
    where
      later :
          ((j : String) (x : WalDocument Data)
            → Dict.get ((k, d) ∷ docs) j ≡ some x
            → NotInserted x.actions)
          → (j : String) (x : WalDocument Data) → Dict.get docs j ≡ some x
          → NotInserted x.actions
      later n j x g = n j x (elim (Bool-cases (str_eq k j)) [
        | inl same ↦
            absurd (cc (sym g ∙ subst (λ i. Dict.get docs i ≡ none) ((eq_iff k j).0 same) m.1))
        | inr differs ↦ rw differs g
      ])

  after_nothing : (k : String) (x : List Content) → after_batch k [] x ≡ x
  unfolding after_batch drops adds
  after_nothing k x = append-nil x

  -- A shard that is replaced by one with the same documents.
  set-docs :
      (n : ℕ) (xs : List Index) (x y : Index)
      → get_elem? xs n ≡ some x
      → ((k : String) → found k y ≡ found k x)
      → (k : String) (j : ℕ) → docs_at ε k j (set xs n y) ≡ docs_at ε k j xs
  set-docs n xs x y there same k j = elim (Bool-cases (j == n)) [
    | inl here ↦
        let (new, old) = docs_at-set_self ε law k n xs x y there in
        subst (λ i. docs_at ε k i (set xs n y) ≡ docs_at ε k i xs) (sym ((==_iff j n).0 here))
          (new ∙ same k ∙ sym old)
    | inr other_shard ↦ docs_at-set_other ε law k n j xs y (ground arith)
  ]

  put_batch-docs :
      (n : ℕ) (xs : List Index) (r : Result CoreErr Index)
      → ((y : Index)
          → r ≡ ok y
          → (x : Index) × (get_elem? xs n ≡ some x) × ((k : String) → found k y ≡ found k x))
      → (k : String) (j : ℕ) → docs_at ε k j (put_batch ε (pos n) xs r).1 ≡ docs_at ε k j xs
  unfolding put_batch put_writer
  put_batch-docs n xs (err e) h k j = refl
  put_batch-docs n xs (ok y) h k j =
      let (x, there, same) = h y refl in set-docs n xs x y there same k j

  put_batch-length :
      (n : ℕ) (xs : List Index) (r : Result CoreErr Index)
      → length (put_batch ε (pos n) xs r).1 ≡ length xs
  unfolding put_batch put_writer
  put_batch-length n xs (err e) = refl
  put_batch-length n xs (ok y) = length-set ε law xs n y

  module _ (range : RangeOrder Data) (ranges : IsRange range) where
    undo_group-docs :
        (s : ℤ) (docs : Dict (WalDocument Data)) (xs : List Index)
        → IsMap docs
        → ((n : ℕ)
            → s ≡ pos n
            → (k : String) (d : WalDocument Data) → Dict.get docs k ≡ some d
            → NotInserted d.actions)
        → (k : String) (j : ℕ) → docs_at ε k j (undo_group ε range s docs xs).1 ≡ docs_at ε k j xs
    unfolding undo_group
    undo_group-docs (negsuc n) docs xs m new k j = refl
    undo_group-docs (pos n) docs xs m new k j =
        put_batch-docs n xs _
          (λ y e.
            let (x, there, e1) = bind-ok (get_writer (pos n) xs) _ e in
            let (ops, made, e2) = bind-ok (collect_undo ε (range.docs docs)) _ e1 in
            let nothing : ops ≡ [] =
              collect_undo-none (range.docs docs) ops (ranges.docs_IsMap docs m)
                (λ i d g. new n refl i d (sym (ranges.docs_get docs i) ∙ g)) made in
            (
              x,
              (get_writer-there ε n xs x there).0,
              λ i. batch_docs ε law ops x y e2 i ∙ rw nothing (after_nothing i (found i x)),
            ))
          k j

    undo_shard-docs :
        (w : MergeDocs Data) (s : ℤ) (xs : List Index)
        → IsGroups w
        → ((n : ℕ) (k : String) (d : WalDocument Data)
            → doc_in (pos n) k w ≡ some d
            → NotInserted d.actions)
        → (k : String) (j : ℕ) → docs_at ε k j (undo_shard ε range w s xs).1 ≡ docs_at ε k j xs
    unfolding undo_shard
    undo_shard-docs w s xs g new k j = elim (Option-cases (group_at s w)) [
      | inl missing ↦ rw (missing, undo_shard) refl
      | inr (docs, there) ↦
          rw (there, undo_shard)
            (undo_group-docs s docs xs (group_at-IsMap ε law range ranges w s docs g there)
              (λ n e i d h. new n i d (
                subst (λ t. doc_in t i w ≡ some d) e
                  (doc_in-group ε law range ranges w s docs i there ∙ h)))
              k j)
    ]

    pub undo_groups-docs :
        (w : MergeDocs Data) (gs : MergeDocs Data) (xs : List Index)
        → IsGroups w
        → ((n : ℕ) (k : String) (d : WalDocument Data)
            → doc_in (pos n) k w ≡ some d
            → NotInserted d.actions)
        → (k : String) (j : ℕ) → docs_at ε k j (undo_groups ε range w gs xs).1 ≡ docs_at ε k j xs
    unfolding undo_groups
    undo_groups-docs w [] xs g new k j = refl
    undo_groups-docs w ((s, docs) ∷ gs) xs g new k j =
        elim (Result-cases (undo_shard ε range w s xs).0) [
          | inl (u, e) ↦
              rw (e, undo_groups)
                (undo_groups-docs w gs (undo_shard ε range w s xs).1 g new k j ∙ one)
          | inr (f, e) ↦ rw (e, undo_groups) one
        ]
      where
        one : docs_at ε k j (undo_shard ε range w s xs).1 ≡ docs_at ε k j xs
        one = undo_shard-docs w s xs g new k j

    undo_group-length :
        (s : ℤ) (docs : Dict (WalDocument Data)) (xs : List Index)
        → length (undo_group ε range s docs xs).1 ≡ length xs
    unfolding undo_group
    undo_group-length (negsuc n) docs xs = refl
    undo_group-length (pos n) docs xs = put_batch-length n xs _

    undo_shard-length :
        (w : MergeDocs Data) (s : ℤ) (xs : List Index)
        → length (undo_shard ε range w s xs).1 ≡ length xs
    unfolding undo_shard
    undo_shard-length w s xs = elim (Option-cases (group_at s w)) [
      | inl missing ↦ rw (missing, undo_shard) refl
      | inr (docs, there) ↦ rw (there, undo_shard) (undo_group-length s docs xs)
    ]

    pub undo_groups-length :
        (w gs : MergeDocs Data) (xs : List Index)
        → length (undo_groups ε range w gs xs).1 ≡ length xs
    unfolding undo_groups
    undo_groups-length w [] xs = refl
    undo_groups-length w ((s, docs) ∷ gs) xs = elim (Result-cases (undo_shard ε range w s xs).0) [
      | inl (u, e) ↦
          rw (e, undo_groups)
            (undo_groups-length w gs (undo_shard ε range w s xs).1 ∙ undo_shard-length w s xs)
      | inr (f, e) ↦ rw (e, undo_groups) (undo_shard-length w s xs)
    ]
