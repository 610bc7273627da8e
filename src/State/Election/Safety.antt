-- ===== src/State/Election/Safety.antt =====
-- At most one instance leads at any time, however the calls of the instances interleave.
use zincsearch.Prelude.{
  String, ◌≡◌, ◌≢◌, ◌≤◌, ◌<◌, Option, none, some, Bool, false, str_eq, eq_iff, ltb, ltb→lt, arith,
  if◌then◌else◌, ok, Bool-cases, inl, inr, refl,
}
use zincsearch.Time.{Instant, Duration, add}
use zincsearch.State.Entry.{Codec, IsCodec}
use zincsearch.State.Store.{Store, View, Kept, Laws}
use zincsearch.State.Json.{get_json}
use zincsearch.State.Lease.{LeaseRecord, Reading, leads, acquire_write}
use zincsearch.State.Lease.Outcome.{
  IsFree, Took, Released, acquire_write-Outcome, release_write-Released,
}
use zincsearch.State.Json.Reading.{IsGood, Kept-IsGood, Written-IsGood, reading-IsGood, Kept-Holds}
use zincsearch.State.Election.Invariant.{
  key, reading_of, Inv, update-IsGood, Took-Holds, free-ended,
}
use zincsearch.State.Election.{
  Pending, acquiring, releasing, System, update_at, Step, Reach, tick, acquire_reads,
  acquire_writes, release_reads, release_writes, stays, goes, start, lease,
}

module _ {V : Type 0} {σ : Store V} {view : View σ} (laws : Laws view) {c : Codec V LeaseRecord}
    (codec : IsCodec c) (ttl : String → Duration) where
  open view use {entry, top, IsWell, HasRoom}

  tick-Inv :
      (y : System σ.St) (t : Instant)
      → Inv laws codec ttl y
      → y.clock ≤ t
      → Inv laws codec ttl (record y { clock = t })
  tick-Inv y t inv le = record {
    well = inv.well;
    held = λ h lt. inv.held h (omega arith);
    good = inv.good;
    quiet = inv.quiet;
  }

  update-quiet :
      (f : String → Option Pending) (u : String → Instant) (h : String) (o : Option Pending)
      (t : Instant)
      → ((j : String) (r : Reading) → f j ≡ some (releasing r) → u j ≡ 0)
      → ((r : Reading) → o ≡ some (releasing r) → t ≡ 0)
      → (j : String) (r : Reading) → update_at f h o j ≡ some (releasing r)
      → update_at u h t j ≡ 0
  update-quiet f u h o t old new j r q = elim (Bool-cases (str_eq h j)) [
    | inl this ↦ rw this (new r (rw this at q))
    | inr other ↦ rw other (old j r (rw other at q))
  ]

  acquire_reads-Inv :
      (y : System σ.St) (h : String)
      → Inv laws codec ttl y
      → Inv laws codec ttl (record y {
        pending = update_at y.pending h (some (acquiring y.clock (get_json σ c y.store key)));
      })
  acquire_reads-Inv y h inv = record {
    well = inv.well;
    held = inv.held;
    good =
        update-IsGood laws codec ttl y.store y.pending h _ inv.good
          (λ q e. reading-IsGood laws c key y.store (reading_of q) inv.well (cc));
    quiet = λ j r q. elim (Bool-cases (str_eq h j)) [
      | inl this ↦ cc (rw this at q)
      | inr other ↦ inv.quiet j r (rw other at q)
    ];
  }

  release_reads-Inv :
      (y : System σ.St) (h : String)
      → Inv laws codec ttl y
      → Inv laws codec ttl (record y {
        pending = update_at y.pending h (some (releasing (get_json σ c y.store key)));
        until = update_at y.until h 0;
      })
  release_reads-Inv y h inv = record {
    well = inv.well;
    held = λ j lt. elim (Bool-cases (str_eq h j)) [
      | inl this ↦ absurd (let lt' = rw this at lt in omega arith)
      | inr other ↦ rw other (inv.held j (rw other at lt))
    ];
    good =
        update-IsGood laws codec ttl y.store y.pending h _ inv.good
          (λ q e. reading-IsGood laws c key y.store (reading_of q) inv.well (cc));
    quiet = update-quiet y.pending y.until h _ 0 inv.quiet (λ r e. refl);
  }

  ne_of_test : (h j : String) → str_eq h j ≡ false → h ≢ j
  ne_of_test h j p e = cc (p, (eq_iff h j).1 e)

  stays-Inv :
      (y : System σ.St) (h : String) (s' : σ.St) (b : Bool) (end : Instant)
      → Inv laws codec ttl y
      → Kept view y.store s'
      → b ≡ false
      → Inv laws codec ttl (record y {
        store = s';
        pending = update_at y.pending h none;
        until = update_at y.until h (if b then end else 0);
      })
  stays-Inv y h s' b end inv k none_given = record {
    well = k.well;
    held = λ j lt. elim (Bool-cases (str_eq h j)) [
      | inl this ↦ absurd (let lt' = rw (this, none_given) at lt in omega arith)
      | inr other ↦ rw other (Kept-Holds laws c key y.store s' _ k (inv.held j (rw other at lt)))
    ];
    good =
        update-IsGood laws codec ttl s' y.pending h none
          (λ j p q. Kept-IsGood laws c key y.store s' (reading_of p) k (inv.good j p q))
          (λ p q. cc);
    quiet = update-quiet y.pending y.until h none _ inv.quiet (λ q e. cc);
  }

  -- The record of `h` is in the store, whether or not `h` was told so.
  takes-Inv :
      (y : System σ.St) (h : String) (s' : σ.St) (b : Bool) (end : Instant) (r : Reading)
      → Inv laws codec ttl y
      → IsGood laws c key y.store r
      → Took {view = view} laws c
          (lease σ view c ttl h)
          (record { holder = h; expires = end })
          y.store
          s'
      → IsFree {view = view} laws c (lease σ view c ttl h) y.clock r y.store
      → Inv laws codec ttl (record y {
        store = s';
        pending = update_at y.pending h none;
        until = update_at y.until h (if b then end else 0);
      })
  takes-Inv y h s' b end r inv seen took free = record {
    well = took.3.well;
    held = λ j lt. elim (Bool-cases (str_eq h j)) [
      | inl this ↦ elim (Bool-cases b) [
        | inl given ↦
            rw (this, given, ← (eq_iff h j).0 this)
              (Took-Holds laws codec ttl h (record { holder = h; expires = end }) y.store s' took)
        | inr missed ↦ absurd (let lt' = rw (this, missed) at lt in omega arith)
      ]
      | inr other ↦ absurd (
          let ended = free-ended laws codec ttl y h j r inv seen free (ne_of_test h j other) in
          let lt' = rw other at lt in omega arith)
    ];
    good =
        update-IsGood laws codec ttl s' y.pending h none
          (λ j p q.
            Written-IsGood laws c key y.store s' key took.0 took.1 (reading_of p) took.3
              (inv.good j p q))
          (λ p q. cc);
    quiet = update-quiet y.pending y.until h none _ inv.quiet (λ q e. cc);
  }

  acquire_writes-Inv :
      (y : System σ.St) (h : String) (t : Instant) (r : Reading)
      → Inv laws codec ttl y
      → IsGood laws c key y.store r
      → HasRoom y.store
      → let out = acquire_write σ c (lease σ view c ttl h) t y.clock r y.store in
        Inv laws codec ttl (record y {
          store = out.1;
          pending = update_at y.pending h none;
          until = update_at y.until h (if leads out.0 then add t (ttl h) else 0);
        })
  acquire_writes-Inv y h t r inv seen room =
      let l = lease σ view c ttl h in
      let out = acquire_write σ c l t y.clock r y.store in
      elim (acquire_write-Outcome laws c l t y.clock r y.store inv.well room) [
        | inl (led, took, free) ↦
            takes-Inv y h out.1 (leads out.0) (add t (ttl h)) r inv seen took free
        | inr (led, inl kept) ↦ stays-Inv y h out.1 (leads out.0) (add t (ttl h)) inv kept led
        | inr (led, inr (took, free)) ↦
            takes-Inv y h out.1 (leads out.0) (add t (ttl h)) r inv seen took free
      ]

  released-quiet :
      (y : System σ.St) (h : String)
      → Inv laws codec ttl y
      → (j : String) (r : Reading) → update_at y.pending h none j ≡ some (releasing r)
      → y.until j ≡ 0
  released-quiet y h inv j r q = elim (Bool-cases (str_eq h j)) [
    | inl this ↦ cc (rw this at q)
    | inr other ↦ inv.quiet j r (rw other at q)
  ]

  -- The store after a release of `h`, whose term is over.
  release_writes-Inv :
      (y : System σ.St) (h : String) (r : Reading) (s' : σ.St)
      → Inv laws codec ttl y
      → y.pending h ≡ some (releasing r)
      → Released {view = view} laws c (lease σ view c ttl h) r y.store s'
      → Inv laws codec ttl (record y { store = s'; pending = update_at y.pending h none })
  release_writes-Inv y h r s' inv p (inl k) = record {
    well = k.well;
    held = λ j lt. Kept-Holds laws c key y.store s' _ k (inv.held j lt);
    good =
        update-IsGood laws codec ttl s' y.pending h none
          (λ j q e. Kept-IsGood laws c key y.store s' (reading_of q) k (inv.good j q e))
          (λ q e. cc);
    quiet = released-quiet y h inv;
  }
  release_writes-Inv y h r s' inv p (inr (cur, e, read, there, own, (v, n, m, w))) = record {
    well = w.well;
    held = λ j lt. absurd (
        let (e', there', value) = inv.held j lt in
        let seen : IsGood laws c key y.store (ok (cur, e.revision)) =
          rw read at (inv.good h (releasing r) p) in
        let now : c.unmarshal e.value ≡ some cur = seen.1 e there refl in
        let same : cur ≡ record { holder = j; expires = y.until j } =
          cc (there, there', now, value) in
        let mine : h ≡ j = cc (same, own) in
        let over : y.until j ≡ 0 = rw mine at (inv.quiet h r p) in omega arith);
    good =
        update-IsGood laws codec ttl s' y.pending h none
          (λ j q x. Written-IsGood laws c key y.store s' key v n (reading_of q) w (inv.good j q x))
          (λ q x. cc);
    quiet = released-quiet y h inv;
  }

  Step-Inv :
      {y z : System σ.St} → Step σ view c ttl y z → Inv laws codec ttl y → Inv laws codec ttl z
  Step-Inv {y} (tick t le) inv = tick-Inv y t inv le
  Step-Inv {y} (acquire_reads h p) inv = acquire_reads-Inv y h inv
  Step-Inv {y} (acquire_writes h t r p room) inv =
      acquire_writes-Inv y h t r inv (inv.good h (acquiring t r) p) room
  Step-Inv {y} (release_reads h p) inv = release_reads-Inv y h inv
  Step-Inv {y} (release_writes h r p room) inv =
      release_writes-Inv y h r _ inv p
        (release_write-Released laws c (lease σ view c ttl h) r y.store inv.well room)

  Reach-Inv :
      {y z : System σ.St} → Reach σ view c ttl y z → Inv laws codec ttl y → Inv laws codec ttl z
  Reach-Inv stays inv = inv
  Reach-Inv (goes r st) inv = Step-Inv st (Reach-Inv r inv)

  start-Inv : (s : σ.St) → IsWell s → Inv laws codec ttl (start σ view c ttl s)
  start-Inv s w = record {
    well = w;
    held = λ h lt. absurd (omega arith);
    good = λ h p e. cc;
    quiet = λ h r e. refl;
  }

  -- Over any store that keeps the promises of the interface, and with any interleaving of the calls
  -- by which instances acquire, renew and release the lease, where a write that fails for a reason
  -- that the interface does not name may have been done or not: while the term that `Acquire` gave to
  -- one instance runs, the term of every other instance is over. All instances read one clock, what
  -- is stored as JSON is read back, and the revisions do not run out.
  pub one_leader :
      (s : σ.St) {y : System σ.St} (a b : String)
      → IsWell s
      → Reach σ view c ttl (start σ view c ttl s) y
      → a ≢ b
      → y.clock < y.until a
      → y.until b ≤ y.clock
  one_leader s {y} a b w reach ne runs = elim (Bool-cases (ltb y.clock (y.until b))) [
    | inr over ↦ ground (arith, over)
    | inl other ↦
        let inv = Reach-Inv reach (start-Inv s w) in
        let (e, there, value) = inv.held a runs in
        let (e', there', value') = inv.held b (ltb→lt _ _ other) in
        absurd (ne (cc (there, there', value, value')))
  ]
