-- ===== src/Core/Wal/Committed/Batch.antt =====
-- What is left after a batch of the loop of `ConsumeWAL` is written, or is not full yet.
use zincsearch.Prelude.{
  ℕ, ◌+◌, ◌<◌, ◌≡◌, List, [], Result, ok, err, length, refl, arith, ◌^◌, inl, ◌∙◌, sym, inr, ap,
  Bool-cases, leb,
}
use zincsearch.Core.Engine.{Engine, CoreErr, LogEntry}
use zincsearch.Core.Merge.{MergeDocs, RangeOrder, max_shard_len, reset}
use zincsearch.Core.Merge.Gathered.{add_all}
use zincsearch.Core.Wal.{
  RedoLog, IndexShard, Round, stopped, going, or_zeros, flush_docs, after_flush, flush_if_full,
}
use zincsearch.Core.Wal.Flushing.{
  written, RedoLaws, Flushed, Stays, flush_docs-Flushed, not_begun, interrupted,
}
use zincsearch.Core.Wal.Committed.{Emptied, Entries, Batches, CommittedAt, Left, Going, one_more}
use zincsearch.Core.Wal.Committed.Gathering.{Emptied-reset}

module _ (ε : Engine) (ρ : RedoLog) (redo_law : RedoLaws ρ) (range : RangeOrder ε.Data)
    (w : ε.Wal) where
  open ε use {Index, Data}

  module _ (a : ℕ) (xs : List Index) where
    or_zeros-ok : (p : ℕ × ℕ) → or_zeros (ok p) ≡ ok p
    unfolding or_zeros
    or_zeros-ok p = refl

    -- A flush leaves a state from which nothing is lost; if it succeeds the batch is committed.
    pub flush_docs-Left :
        (s : IndexShard ε ρ) (upto : ℕ) (es : List (LogEntry Data)) (docs : MergeDocs Data)
        → Emptied docs
        → Entries ε ρ range w upto es
        → Batches ε ρ range w a xs upto s.shards
        → CommittedAt ε ρ range w s.redo upto
        → s.wal ≡ w
        → redo_law.IsValid s.redo
        → upto + 1 < 2 ^ 64
        → upto + length es < 2 ^ 64
        → (r : Result CoreErr (Unit {0})) (s' : IndexShard ε ρ)
        → Flushed ε ρ redo_law range (upto + 1) (upto + length es) (add_all es docs) s r s'
        → Stays ε ρ redo_law range s s'
        → Left ε ρ range w redo_law a xs s'
          × (r ≡ ok tt
              → Batches ε ρ range w a xs (upto + length es) s'.shards
                × CommittedAt ε ρ range w s'.redo (upto + length es))
    flush_docs-Left s upto es docs emptied entries batches committed wal valid lo hi r s' f stays =
        elim f [
          | not_begun e fails same_shards writing ↦ (
            record {
              upto = upto;
              mid = s.shards;
              batches = batches;
              committed = rw writing committed;
              shards_are = inl same_shards;
              same_wal = stays.same_wal ∙ wal;
              valid = stays.valid;
            },
            λ done. absurd (cc (sym done ∙ fails)),
          )
          | interrupted e fails wrote reading writing ↦ (
            record {
              upto = upto;
              mid = s.shards;
              batches = batches;
              committed = rw writing committed;
              shards_are = inr (record {
                es = es;
                docs = docs;
                emptied = emptied;
                entries = entries;
                shards_are = sym (ap (λ p. p.1) wrote);
                begun = reading;
              });
              same_wal = stays.same_wal ∙ wal;
              valid = stays.valid;
            },
            λ done. absurd (cc (sym done ∙ fails)),
          )
          | written wrote writing ↦
              let more : Batches ε ρ range w a xs (upto + length es) s'.shards =
                one_more es docs batches emptied entries refl wrote in
              let now : CommittedAt ε ρ range w s'.redo (upto + length es) =
                (upto + 1, ap or_zeros writing ∙ or_zeros-ok (upto + 1, upto + length es)) in
              (
                record {
                  upto = upto + length es;
                  mid = s'.shards;
                  batches = more;
                  committed = now;
                  shards_are = inl refl;
                  same_wal = stays.same_wal ∙ wal;
                  valid = stays.valid;
                },
                λ done. (more, now),
              )
        ]

    abbrev pub FlushEnd : ℕ → Result CoreErr (Unit {0}) × IndexShard ε ρ → Type 0
    FlushEnd id p =
        Left ε ρ range w redo_law a xs p.1
        × (p.0 ≡ ok tt
            → Batches ε ρ range w a xs id p.1.shards × CommittedAt ε ρ range w p.1.redo id)

    abbrev pub Ends : Round ε ρ → ℕ → Type 0
    Ends (stopped s) next = Left ε ρ range w redo_law a xs s
    Ends (going p) next = Going ε ρ range w redo_law a xs p × (p.next ≡ next)

    after_flush-Ends :
        (id : ℕ) (es : List (LogEntry Data)) (docs : MergeDocs Data) (r : Result CoreErr (Unit {0}))
        (s : IndexShard ε ρ)
        → Emptied docs
        → Left ε ρ range w redo_law a xs s
        → (r ≡ ok tt → Batches ε ρ range w a xs id s.shards × CommittedAt ε ρ range w s.redo id)
        → Ends (after_flush ε ρ range id (add_all es docs) (r, s)) (id + 1)
    unfolding after_flush add_all reset Entries
    after_flush-Ends id es docs (err e) s emptied left done = left
    after_flush-Ends id es docs (ok u) s emptied left done = (
      record {
        upto = id;
        es = [];
        docs = reset (add_all es docs);
        starts = refl;
        nexts = omega arith;
        gathered = refl;
        emptied = Emptied-reset es docs emptied;
        entries = tt;
        counted = inl refl;
        batches = (done refl).0;
        committed = (done refl).1;
        same_wal = left.same_wal;
        valid = left.valid;
      },
      refl,
    )

    module _ (upto : ℕ) (es : List (LogEntry Data)) (docs : MergeDocs Data) (s : IndexShard ε ρ)
        (emptied : Emptied docs) (entries : Entries ε ρ range w upto es)
        (batches : Batches ε ρ range w a xs upto s.shards)
        (committed : CommittedAt ε ρ range w s.redo upto) (wal : s.wal ≡ w)
        (valid : redo_law.IsValid s.redo) (lo : upto + 1 < 2 ^ 64)
        (hi : upto + length es < 2 ^ 64) where
      pub flushed :
          FlushEnd
            (upto + length es)
            (flush_docs ε ρ range (upto + 1) (upto + length es) (add_all es docs) s)
      flushed =
          let (f, stays) =
            flush_docs-Flushed ε ρ redo_law range (upto + 1) (upto + length es) lo hi
              (add_all es docs) s valid in
          flush_docs-Left s upto es docs emptied entries batches committed wal valid lo hi _ _ f
            stays

      pub flush_if_full-Ends :
          (size : ℕ)
          → 0 < max_shard_len (add_all es docs)
          → Ends
              (flush_if_full ε ρ range size (upto + 1) (upto + length es) (add_all es docs) s)
              (upto + length es + 1)
      unfolding flush_if_full
      flush_if_full-Ends size counted =
          elim (Bool-cases (leb size (max_shard_len (add_all es docs)))) [
            | inl full ↦
                rw full
                  (after_flush-Ends (upto + length es) es docs _ _ emptied flushed.0 flushed.1)
            | inr room ↦ rw room (
              record {
                upto = upto;
                es = es;
                docs = docs;
                starts = refl;
                nexts = refl;
                gathered = refl;
                emptied = emptied;
                entries = entries;
                counted = inr counted;
                batches = batches;
                committed = committed;
                same_wal = wal;
                valid = valid;
              },
              refl,
            )
          ]
