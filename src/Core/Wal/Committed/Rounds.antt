-- ===== src/Core/Wal/Committed/Rounds.antt =====
-- One round of the loop of `ConsumeWAL`, and all of them.
use zincsearch.Prelude.{
  ℕ, ◌+◌, ◌<◌, ◌≡◌, ◌⊎◌, List, [], ◌∷◌, ◌++◌, ok, length, refl, arith, subst, ◌^◌, inl, ◌∙◌, sym,
  inr, ap, Bool-cases, Result-cases, length-append, zero, ◌-◌, ltb,
}
use zincsearch.Core.Engine.{Engine, LogEntry}
use zincsearch.Core.Merge.{RangeOrder, add_document, max_shard_len}
use zincsearch.Core.Merge.Gathered.{add_all}
use zincsearch.Core.Wal.{
  RedoLog, IndexShard, Reading, Round, stopped, going, entry_at, flush_docs, flush_if_full,
  take_entry, take_entries, suc, flush_rest,
}
use zincsearch.Core.Wal.Flushing.{RedoLaws}
use zincsearch.Core.Wal.Committed.{Entries, Batches, CommittedAt, Left, Going}
use zincsearch.Core.Wal.Committed.Gathering.{add_all-append, add_document_pos}
use zincsearch.Core.Wal.Committed.Batch.{Ends, FlushEnd, flushed, flush_if_full-Ends}

module _ (ε : Engine) (ρ : RedoLog) (redo_law : RedoLaws ρ) (range : RangeOrder ε.Data)
    (w : ε.Wal) where
  open ε use {Index, Data}

  Entries-append :
      (b : ℕ) (es : List (LogEntry Data)) (e : LogEntry Data)
      → Entries ε ρ range w b es
      → entry_at ε ρ w (b + length es + 1) ≡ ok e
      → Entries ε ρ range w b (es ++ e ∷ [])
  unfolding Entries
  Entries-append b [] e h k = (subst (λ i. entry_at ε ρ w i ≡ ok e) (omega arith) k, tt)
  Entries-append b (f ∷ es) e h k =
      (h.0, Entries-append (b + 1) es e h.1 (subst (λ i. entry_at ε ρ w i ≡ ok e) (omega arith) k))

  module _ (a : ℕ) (xs : List Index) where
    Going-Left :
        (p : Reading ε ρ)
        → Going ε ρ range w redo_law a xs p
        → Left ε ρ range w redo_law a xs p.shard
    Going-Left p g = record {
      upto = g.upto;
      mid = p.shard.shards;
      batches = g.batches;
      committed = g.committed;
      shards_are = inl refl;
      same_wal = g.same_wal;
      valid = g.valid;
    }

    -- The entry joins the gathered ones.
    joined :
        (size : ℕ) (p : Reading ε ρ) (x : LogEntry Data)
        → Going ε ρ range w redo_law a xs p
        → p.next + 1 < 2 ^ 64
        → entry_at ε ρ p.shard.wal p.next ≡ ok x
        → Ends ε ρ redo_law range w a xs
            (flush_if_full ε ρ range size p.start p.next (add_document x p.docs) p.shard)
            (p.next + 1)
    joined size p x g bound e =
        subst
          (λ d.
            Ends ε ρ redo_law range w a xs (flush_if_full ε ρ range size p.start p.next d p.shard)
              (p.next + 1))
          docs_are
          (subst
            (λ i.
              Ends ε ρ redo_law range w a xs
                (flush_if_full ε ρ range size p.start i (add_all es g.docs) p.shard) (i + 1))
            id_is
            (subst
              (λ i.
                Ends ε ρ redo_law range w a xs
                  (flush_if_full ε ρ range size i (g.upto + length es) (add_all es g.docs) p.shard)
                  (g.upto + length es + 1))
              (sym g.starts) core))
      where
        es : List (LogEntry Data)
        es = g.es ++ x ∷ []

        docs_are : add_all es g.docs ≡ add_document x p.docs
        docs_are = add_all-append g.es x g.docs ∙ ap (add_document x) (sym g.gathered)

        id_is : g.upto + length es ≡ p.next
        id_is = omega (arith, g.nexts, length-append g.es (x ∷ []))

        entries : Entries ε ρ range w g.upto es
        entries = Entries-append g.upto g.es x g.entries (
            subst (λ i. entry_at ε ρ w i ≡ ok x) g.nexts
              (subst (λ l. entry_at ε ρ l p.next ≡ ok x) g.same_wal e))

        core :
            Ends ε ρ redo_law range w a xs
              (flush_if_full ε ρ range size
                (g.upto + 1)
                (g.upto + length es)
                (add_all es g.docs)
                p.shard)
              (g.upto + length es + 1)
        core =
            flush_if_full-Ends ε ρ redo_law range w a xs g.upto es g.docs p.shard g.emptied entries
              g.batches g.committed g.same_wal g.valid (omega (arith, g.nexts))
              (omega (arith, id_is)) size (rw docs_are (add_document_pos x p.docs))

    take_entry-Ends :
        (size : ℕ) (p : Reading ε ρ)
        → Going ε ρ range w redo_law a xs p
        → p.next + 1 < 2 ^ 64
        → Ends ε ρ redo_law range w a xs (take_entry ε ρ range size p) (p.next + 1)
    unfolding take_entry
    take_entry-Ends size p g bound = elim (Result-cases (entry_at ε ρ p.shard.wal p.next)) [
      | inr (f, e) ↦ rw (e, take_entry) (Going-Left p g)
      | inl (x, e) ↦ rw (e, take_entry) (joined size p x g bound e)
    ]

    Round-cases :
        (r : Round ε ρ)
        → ((s : IndexShard ε ρ) × (r ≡ stopped s)) ⊎ ((p : Reading ε ρ) × (r ≡ going p))
    Round-cases (stopped s) = inl (s, refl)
    Round-cases (going p) = inr (p, refl)

    -- What a round leaves, the next one takes up.
    pub take_entries-Ends :
        (size rounds : ℕ) (p : Reading ε ρ) (next : ℕ)
        → Going ε ρ range w redo_law a xs p
        → p.next + rounds ≡ next
        → next < 2 ^ 64
        → Ends ε ρ redo_law range w a xs (take_entries ε ρ range size rounds p) next
    unfolding take_entries
    take_entries-Ends size zero p next g e bound = (g, omega (arith, e))
    take_entries-Ends size (suc rounds) p next g e bound =
        elim (Round-cases (take_entry ε ρ range size p)) [
          | inl (s, q) ↦
              rw (q, take_entries)
                (subst (λ r. Ends ε ρ redo_law range w a xs r (p.next + 1)) q step)
          | inr (p', q) ↦
              let (g', n) = subst (λ r. Ends ε ρ redo_law range w a xs r (p.next + 1)) q step in
              rw (q, take_entries)
                (take_entries-Ends size rounds p' next g' (omega (arith, e, n)) bound)
        ]
      where
        step : Ends ε ρ redo_law range w a xs (take_entry ε ρ range size p) (p.next + 1)
        step = take_entry-Ends size p g (omega (arith, e))

    -- What is left to write after the loop.
    pub flush_rest-FlushEnd :
        (p : Reading ε ρ)
        → Going ε ρ range w redo_law a xs p
        → p.next < 2 ^ 64
        → FlushEnd ε ρ redo_law range w a xs (p.next - 1) (flush_rest ε ρ range p)
    unfolding flush_rest
    flush_rest-FlushEnd p g bound = elim (Bool-cases (ltb 0 (max_shard_len p.docs))) [
      | inl some_docs ↦
          rw (some_docs, flush_rest)
            (subst
              (λ d.
                FlushEnd ε ρ redo_law range w a xs (p.next - 1)
                  (flush_docs ε ρ range p.start (p.next - 1) d p.shard))
              (sym g.gathered)
              (subst
                (λ i.
                  FlushEnd ε ρ redo_law range w a xs i
                    (flush_docs ε ρ range p.start i (add_all g.es g.docs) p.shard))
                last_is
                (subst
                  (λ i.
                    FlushEnd ε ρ redo_law range w a xs (g.upto + length g.es)
                      (flush_docs ε ρ range i (g.upto + length g.es) (add_all g.es g.docs) p.shard))
                  (sym g.starts) core)))
      | inr no_docs ↦ rw (no_docs, flush_rest) (Going-Left p g, λ done. nothing (ground arith))
    ]
      where
        last_is : g.upto + length g.es ≡ p.next - 1
        last_is = omega (arith, g.nexts)

        core :
            FlushEnd ε ρ redo_law range w a xs (g.upto + length g.es) (
              flush_docs ε ρ range
                (g.upto + 1)
                (g.upto + length g.es)
                (add_all g.es g.docs)
                p.shard)
        core =
            flushed ε ρ redo_law range w a xs g.upto g.es g.docs p.shard g.emptied g.entries
              g.batches g.committed g.same_wal g.valid (omega (arith, g.nexts))
              (omega (arith, g.nexts))

        nothing :
            g.es ≡ []
            → Batches ε ρ range w a xs (p.next - 1) p.shard.shards
              × CommittedAt ε ρ range w p.shard.redo (p.next - 1)
        nothing e =
            let upto_is : g.upto ≡ p.next - 1 = omega (arith, g.nexts, ap length e) in
            (
              subst (λ i. Batches ε ρ range w a xs i p.shard.shards) upto_is g.batches,
              subst (λ i. CommittedAt ε ρ range w p.shard.redo i) upto_is g.committed,
            )
