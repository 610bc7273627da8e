-- ===== src/Core/Wal/Committed/Consumed.antt =====
-- What `ConsumeWAL` promises, whether or not it gets to its end.
use zincsearch.Core.Wal.Committed.Batch.{Ends, FlushEnd}
use zincsearch.Core.Wal.Committed.Rounds.{take_entries-Ends, flush_rest-FlushEnd}
use zincsearch.Prelude.{
  ◌-◌, ◌==◌, ℕ, ◌+◌, ◌≡◌, ◌⊎◌, List, [], ◌∷◌, ◌++◌, refl, arith, min, Bool, Result-cases, false,
  inl, inr, true, Bool-cases, ltb, Result, false≢true, ◌≤◌, ok, ◌<◌, ◌^◌, sym, ◌∙◌, ap,
}
use zincsearch.Core.Shards.{check_shards, new_shard, get_writer, latest_shard_id}
use zincsearch.Core.Engine.{Engine, CoreErr}
use zincsearch.Core.Merge.{RangeOrder, group_or_new, group_at}
use zincsearch.Core.Merge.Gathered.{IsGroups, doc_in, add_all}
use zincsearch.Core.Wal.{
  RedoLog, IndexShard, Settings, clean_up, max_batch_size, consume_wal, finish_consume,
  finish_flush, limited, Round, consume_from, Reading, stopped, going, err, flush_rest,
}
use zincsearch.Core.Wal.Flushing.{RedoLaws}
use zincsearch.Core.Wal.Committed.{
  Batches, Interrupted, CommittedAt, Left, Going, Emptied, Entries, none_yet,
}
use zincsearch.Dict

module _ (ε : Engine) (ρ : RedoLog) (redo_law : RedoLaws ρ) (range : RangeOrder ε.Data) where
  open ε use {Index, Wal, wal_last, wal_truncate}

  -- After a consumption of the log of `s`, whose entries after `m` up to `last` were to be written.
  pub record Consumed (m last : ℕ) (s : IndexShard ε ρ) (r : Bool × IndexShard ε ρ) : Type 0 where
    pub upto : ℕ
    pub mid : List Index
    pub batches : Batches ε ρ range s.wal m s.shards upto mid
    pub committed : CommittedAt ε ρ range s.wal r.1.redo upto
    pub valid : redo_law.IsValid r.1.redo
    pub unfinished :
        r.0 ≡ false
        → (r.1.wal ≡ s.wal) × ((r.1.shards ≡ mid) ⊎ Interrupted ε ρ range s.wal upto mid r.1)
    pub finished :
        r.0 ≡ true
        → (upto ≡ min last (m + max_batch_size))
          × (r.1.wal ≡ (wal_truncate upto s.wal).1)
          × ((r.1.shards ≡ mid) ⊎ (r.1.shards ≡ mid ++ ε.fresh ∷ []))

  -- `CheckShards` adds an empty shard at most.
  check_shards-cases :
      (max_size : ℕ) (is_stored : Bool) (xs : List Index)
      → ((check_shards ε max_size is_stored xs).1 ≡ xs)
        ⊎ ((check_shards ε max_size is_stored xs).1 ≡ xs ++ ε.fresh ∷ [])
  unfolding check_shards new_shard
  check_shards-cases max_size is_stored xs =
      elim (Result-cases (get_writer (latest_shard_id xs) xs)) [
        | inl (x, e) ↦ elim (Bool-cases (ltb max_size (ε.size x))) [
          | inl large ↦ inr (ground arith)
          | inr small ↦ inl (ground arith)
        ]
        | inr (f, e) ↦ inl (ground arith)
      ]

  clean_up_lem :
      (c : Settings) (id : ℕ) (s : IndexShard ε ρ)
      → ((clean_up ε ρ range c id s).redo ≡ s.redo)
        × ((clean_up ε ρ range c id s).wal ≡ (wal_truncate id s.wal).1)
        × (((clean_up ε ρ range c id s).shards ≡ s.shards)
            ⊎ ((clean_up ε ρ range c id s).shards ≡ s.shards ++ ε.fresh ∷ []))
  unfolding clean_up
  clean_up_lem c id s = elim (Result-cases (wal_truncate id s.wal).0) [
    | inl (u, e) ↦ rw (e, clean_up) (refl, refl, check_shards-cases c.max_size c.is_stored s.shards)
    | inr (f, e) ↦ rw (e, clean_up) (refl, refl, inl refl)
  ]

  module _ (c : Settings) (s : IndexShard ε ρ) (m last : ℕ) where
    stopped-Consumed :
        (s' : IndexShard ε ρ)
        → Left ε ρ range s.wal redo_law m s.shards s'
        → Consumed m last s (false, s')
    stopped-Consumed s' l = record {
      upto = l.upto;
      mid = l.mid;
      batches = l.batches;
      committed = l.committed;
      valid = l.valid;
      unfinished = λ e. (l.same_wal, l.shards_are);
      finished = λ e. absurd (false≢true e);
    }

    finish_flush-Consumed :
        (id : ℕ) (p : Result CoreErr (Unit {0}) × IndexShard ε ρ)
        → id ≡ min last (m + max_batch_size)
        → FlushEnd ε ρ redo_law range s.wal m s.shards id p
        → Consumed m last s (finish_flush ε ρ range c id p)
    unfolding finish_flush
    finish_flush-Consumed id (err e, s') up (left, done) = stopped-Consumed s' left
    finish_flush-Consumed id (ok u, s') up (left, done) =
        let (redo, wal, shards) = clean_up_lem c id s' in
        record {
          upto = id;
          mid = s'.shards;
          batches = (done refl).0;
          committed = rw redo (done refl).1;
          valid = rw redo left.valid;
          unfinished = λ e. absurd (false≢true (sym e));
          finished = λ e. (up, wal ∙ ap (λ l. (wal_truncate id l).1) left.same_wal, shards);
        }

    finish_consume-Consumed :
        (r : Round ε ρ)
        → Ends ε ρ redo_law range s.wal m s.shards r (min last (m + max_batch_size) + 1)
        → last + 1 < 2 ^ 64
        → Consumed m last s (finish_consume ε ρ range c r)
    unfolding finish_consume
    finish_consume-Consumed (stopped s') left bound = stopped-Consumed s' left
    finish_consume-Consumed (going p) (g, next) bound =
        finish_flush-Consumed (p.next - 1) (flush_rest ε ρ range p) (omega (arith, next))
          (flush_rest-FlushEnd ε ρ redo_law range s.wal m s.shards p g (omega (arith, next)))

    limited_lem :
        m ≤ last → last + 1 < 2 ^ 64 → limited ε ρ range m last ≡ min last (m + max_batch_size)
    unfolding limited
    limited_lem le bound = ground arith

    -- Whatever fails in `ConsumeWAL`: the log's entries after the last committed one are written to
    -- the second layer shards in consecutive batches of their documents, in their order and without
    -- a gap, up to the entry that the redo log then names as committed. If it returns true, that
    -- entry is the log's last, or the 10240th, the log is truncated there, and the shards are those
    -- that the batches left, or one more that is empty. If it returns false the log is as it was, and
    -- at most one batch more was begun, which the redo log names. No number reaches 2 ^ 64, and the
    -- redo log keeps what is written to it.
    pub consume_commits :
        redo_law.IsValid s.redo
        → wal_last s.wal ≡ ok last
        → CommittedAt ε ρ range s.wal s.redo m
        → m ≤ last
        → last + 1 < 2 ^ 64
        → Consumed m last s (consume_wal ε ρ range c s)
    unfolding consume_wal consume_from Emptied IsGroups doc_in group_or_new group_at Dict.get
        Entries add_all
    consume_commits valid last_is (a, committed) le bound =
        rw (last_is, consume_wal) (rw (committed, consume_wal) (from (Bool-cases (m == last))))
      where
        first : Reading ε ρ
        first = record { start = m + 1; next = m + 1; docs = []; shard = s }

        begins : Going ε ρ range s.wal redo_law m s.shards first
        begins = record {
          upto = m;
          es = [];
          docs = [];
          starts = refl;
          nexts = omega arith;
          gathered = refl;
          emptied = (tt, λ u k. refl);
          entries = tt;
          counted = inl refl;
          batches = none_yet;
          committed = (a, committed);
          same_wal = refl;
          valid = valid;
        }

        from :
            ((m == last) ≡ true) ⊎ ((m == last) ≡ false)
            → Consumed m last s (consume_from ε ρ range c m last s)
        from (inl same) =
            rw (same, consume_from)
              (stopped-Consumed s (record {
                upto = m;
                mid = s.shards;
                batches = none_yet;
                committed = (a, committed);
                shards_are = inl refl;
                same_wal = refl;
                valid = valid;
              }))
        from (inr more) =
            rw (more, consume_from)
              (finish_consume-Consumed _
                (take_entries-Ends ε ρ redo_law range s.wal m s.shards c.batch_size
                  (limited ε ρ range m last - m) first _ begins
                  (omega (arith, limited_lem le bound)) (omega arith))
                bound)
