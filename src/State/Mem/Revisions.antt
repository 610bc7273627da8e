-- ===== src/State/Mem/Revisions.antt =====
-- Revisions of the store in memory identify values: what a writer read and then replaces by its
-- revision is still what it read, whatever happened in between.
use zincsearch.Prelude.{
  ℕ, ◌+◌, ◌^◌, ◌≤◌, ◌<◌, String, ◌≡◌, some, List, [], ◌∷◌, arith, eq_iff, ok, Result-cases, inl,
  inr, length,
}
use zincsearch.Dict
use zincsearch.Dict.{get-remove}
use zincsearch.State.Entry.{Entry}
use zincsearch.State.Store.{Written}
use zincsearch.State.Mem.{Mem, get, create, update, delete}
use zincsearch.State.Mem.Laws.{
  IsWell, mem_view, create-Written, update-Written, create_err-same, update_err-same, update-was,
  get-some, delete-IsWell, delete_entries, rev-delete,
}

-- A call that some client makes.
pub data Call (V : Type 0) : Type 0 where
  create_call : String → V → Call V
  update_call : String → V → ℕ → Call V
  delete_call : String → Call V

module _ {V : Type 0} where
  unfoldable pub apply : Mem V → Call V → Mem V
  apply m (create_call k v) = (create m k v).1
  apply m (update_call k v x) = (update m k v x).1
  apply m (delete_call k) = (delete m k).1

  unfoldable pub run : Mem V → List (Call V) → Mem V
  unfolding apply
  run m [] = m
  run m (c ∷ cs) = run (apply m c) cs

  -- What holds of `m` once `e` was read under `k`.
  record IsAfter (k : String) (e : Entry V) (m : Mem V) : Type 0 where
    well : IsWell m
    seen : e.revision ≤ m.rev
    same : (e' : Entry V) → Dict.get m.entries k ≡ some e' → e'.revision ≡ e.revision → e' ≡ e

  Written-IsAfter :
      (k : String) (e : Entry V) (m : Mem V) (j : String) (v : V) (r : ℕ) (m' : Mem V)
      → IsAfter k e m
      → Written (mem_view V) m j v r m'
      → IsAfter k e m'
  Written-IsAfter k e m j v r m' h w = record {
    well = w.well;
    seen = omega (arith, h.seen, w.grows k);
    same = λ e' p q. ground (arith, h.seen, w.fresh, w.entries k, h.same e', eq_iff j k);
  }

  delete-IsAfter :
      (k : String) (e : Entry V) (m : Mem V) (j : String)
      → IsAfter k e m
      → IsAfter k e (delete m j).1
  delete-IsAfter k e m j h = record {
    well = delete-IsWell m j h.well;
    seen = rw (rev-delete m j) h.seen;
    same = λ e' p q. ground (arith, delete_entries m j k, h.same e');
  }

  apply-IsAfter :
      (k : String) (e : Entry V) (m : Mem V) (c : Call V)
      → m.rev + 1 < 2 ^ 64
      → IsAfter k e m
      → IsAfter k e (apply m c)
  unfolding apply
  apply-IsAfter k e m (create_call j v) room h = elim (Result-cases (create m j v).0) [
    | inl (r, p) ↦ Written-IsAfter k e m j v r _ h (create-Written m j v r h.well room p)
    | inr (x, p) ↦ rw (create_err-same m j v x p) h
  ]
  apply-IsAfter k e m (update_call j v y) room h = elim (Result-cases (update m j v y).0) [
    | inl (r, p) ↦ Written-IsAfter k e m j v r _ h (update-Written m j v y r h.well room p)
    | inr (x, p) ↦ rw (update_err-same m j v y x p) h
  ]
  apply-IsAfter k e m (delete_call j) room h = delete-IsAfter k e m j h

  rev-apply : (m : Mem V) (c : Call V) → m.rev + 1 < 2 ^ 64 → (apply m c).rev ≤ m.rev + 1
  unfolding apply create update delete
  rev-apply m (create_call k v) room = ground arith
  rev-apply m (update_call k v x) room = ground arith
  rev-apply m (delete_call k) room = ground arith

  run-IsAfter :
      (k : String) (e : Entry V) (m : Mem V) (cs : List (Call V))
      → m.rev + length cs < 2 ^ 64
      → IsAfter k e m
      → IsAfter k e (run m cs)
  unfolding run
  run-IsAfter k e m [] room h = h
  run-IsAfter k e m (c ∷ cs) room h =
      run-IsAfter k e (apply m c) cs (omega (arith, rev-apply m c (omega arith)))
        (apply-IsAfter k e m c (omega arith) h)

  -- In a store whose entries are well formed, if an entry is read under a key, and then, after any
  -- calls of any clients (deleting and creating the key again among them), an update of the key
  -- against the revision that was read succeeds, the key held the very entry that was read. The
  -- revision counter does not pass the uint64.
  pub update_of_stale_read :
      (m : Mem V) (k : String) (e : Entry V) (cs : List (Call V)) (v : V) (r : ℕ)
      → IsWell m
      → m.rev + length cs < 2 ^ 64
      → get m k ≡ ok e
      → (update (run m cs) k v e.revision).0 ≡ ok r
      → Dict.get (run m cs).entries k ≡ some e
  update_of_stale_read m k e cs v r h room p q =
      let read = get-some m k e p in
      let start : IsAfter k e m = record {
        well = h;
        seen = h.revision_le k e read;
        same = λ e' p' _. ground (arith);
      } in
      let (e', there, eq) = update-was (run m cs) k v e.revision r q in
      ground (arith, (run-IsAfter k e m cs room start).same e' there eq)
