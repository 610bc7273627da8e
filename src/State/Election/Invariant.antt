-- ===== src/State/Election/Invariant.antt =====
-- What holds of the election between two steps: who holds a running term is in the store, and a
-- reading is good as long as its revision stands.
use zincsearch.Prelude.{
  String, ◌≡◌, ◌≢◌, ◌≤◌, ◌<◌, Option, some, str_eq, eq_iff, ltb, ltb→lt, arith, ok, Bool-cases, inl,
  inr, refl,
}
use zincsearch.Time.{Duration}
use zincsearch.State.Entry.{Codec, IsCodec}
use zincsearch.State.Store.{Store, View, Laws}
use zincsearch.State.Json.Reading.{Holds, IsGood}
use zincsearch.State.Lease.{LeaseRecord, Reading}
use zincsearch.State.Lease.Outcome.{IsFree, Took}
use zincsearch.State.Election.{Pending, acquiring, releasing, System, update_at, lease}

abbrev pub key : String
key = "leader"

abbrev pub reading_of : Pending → Reading
reading_of (acquiring t r) = r
reading_of (releasing r) = r

module _ {V : Type 0} {σ : Store V} {view : View σ} (laws : Laws view) {c : Codec V LeaseRecord}
    (codec : IsCodec c) (ttl : String → Duration) where
  open view use {entry, top, IsWell, HasRoom}

  pub record Inv (y : System σ.St) : Type 0 where
    pub well : IsWell y.store
    pub held :
        (h : String)
        → y.clock < y.until h
        → Holds laws c key y.store (record { holder = h; expires = y.until h })
    pub good :
        (h : String) (p : Pending) → y.pending h ≡ some p → IsGood laws c key y.store (reading_of p)
    pub quiet : (h : String) (r : Reading) → y.pending h ≡ some (releasing r) → y.until h ≡ 0

  pub update-IsGood :
      (s : σ.St) (f : String → Option Pending) (h : String) (o : Option Pending)
      → ((j : String) (p : Pending) → f j ≡ some p → IsGood laws c key s (reading_of p))
      → ((p : Pending) → o ≡ some p → IsGood laws c key s (reading_of p))
      → (j : String) (p : Pending) → update_at f h o j ≡ some p
      → IsGood laws c key s (reading_of p)
  update-IsGood s f h o old new j p q = elim (Bool-cases (str_eq h j)) [
    | inl this ↦ new p (rw this at q)
    | inr other ↦ old j p (rw other at q)
  ]

  -- A record that was just written is what the store holds.
  pub Took-Holds :
      (h : String) (a : LeaseRecord) (s s' : σ.St)
      → Took {view = view} laws c (lease σ view c ttl h) a s s'
      → Holds laws c key s' a
  Took-Holds h a s s' (v, n, m, w) =
      (record { key = key; value = v; revision = n }, w.entries key, codec.read_back a v m)

  -- While a term of one instance runs, the lease is free for no other instance.
  pub free-ended :
      (y : System σ.St) (h j : String) (r : Reading)
      → Inv y
      → IsGood laws c key y.store r
      → IsFree {view = view} laws c (lease σ view c ttl h) y.clock r y.store
      → h ≢ j
      → y.until j ≤ y.clock
  free-ended y h j r inv good free ne = elim (Bool-cases (ltb y.clock (y.until j))) [
    | inr over ↦ ground (arith, over)
    | inl runs ↦
        let (e, there, value) = inv.held j (ltb→lt _ _ runs) in
        absurd (elim free [
          | inl missing ↦ cc
          | inr (cur, e', read, there', taken) ↦
              let seen : IsGood laws c key y.store (ok (cur, e'.revision)) = rw read at good in
              let now : c.unmarshal e'.value ≡ some cur = seen.1 e' there' refl in
              let same : cur ≡ record { holder = j; expires = y.until j } =
                cc (there, there', now, value) in
              ground (arith, same, taken, runs, eq_iff cur.holder h)
        ])
  ]
