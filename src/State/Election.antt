-- ===== src/State/Election.antt =====
-- The leader election of several coordinator instances over one store (`Lease` in
-- pkg/coordinator/state/state.go, `tryLease` and `Run` in pkg/coordinator/coordinator.go): their
-- calls of the store interleave, and each instance has one `Acquire` or `Release` under way at most.
-- All instances read one clock, as the comment on `Lease` asks for.
pub mod Invariant
pub mod Safety
use zincsearch.Prelude.{
  ℕ, String, ◌≡◌, ◌≤◌, Option, none, some, Bool, true, false, str_eq, if◌then◌else◌, Result, ok,
  err,
}
use zincsearch.Time.{Instant, Duration, add}
use zincsearch.State.Entry.{StateErr, Codec}
use zincsearch.State.Store.{Store, View}
use zincsearch.State.Json.{get_json}
use zincsearch.State.Lease.{LeaseRecord, Lease, Reading, leads, acquire_write, release_write}

-- An `Acquire` that has read the store, or a `Release` that has.
pub data Pending : Type 0 where
  acquiring : Instant → Reading → Pending
  releasing : Reading → Pending

abbrev pub update_at {ℓ} : {A : Type ℓ} → (String → A) → String → A → String → A
update_at f k a j = if str_eq k j then a else f j

pub record System (St : Type 0) : Type 0 where
  pub store : St
  pub clock : Instant
  pub pending : String → Option Pending
  pub until : String → Instant  -- the end of the term that the last `Acquire` gave; 0 with no term

abbrev pub term : Result StateErr Bool → Instant → Instant
term r end = if leads r then end else 0

module _ {V : Type 0} (σ : Store V) (view : View σ) (c : Codec V LeaseRecord)
    (ttl : String → Duration) where
  abbrev pub lease : String → Lease
  lease h = record { key = "leader"; holder = h; ttl = ttl h }

  abbrev pub start : σ.St → System σ.St
  start s = record { store = s; clock = 0; pending = λ h. none; until = λ h. 0 }

  pub data Step (y : System σ.St) : System σ.St → Type 0 where
    tick : (t : Instant) → y.clock ≤ t → Step y (record y { clock = t })
    acquire_reads :
        (h : String)
        → y.pending h ≡ none
        → Step y (record y {
          pending =
              update_at y.pending h (some (acquiring y.clock (get_json σ c y.store "leader")));
        })
    acquire_writes :
        (h : String) (t : Instant) (r : Reading)
        → y.pending h ≡ some (acquiring t r)
        → view.HasRoom y.store
        → Step y (record y {
          store = (acquire_write σ c (lease h) t y.clock r y.store).1;
          pending = update_at y.pending h none;
          until =
              update_at y.until h
                (term (acquire_write σ c (lease h) t y.clock r y.store).0 (add t (ttl h)));
        })
    release_reads :  -- the loop of `Run` has ended: the instance leads no more
        (h : String)
        → y.pending h ≡ none
        → Step y (record y {
          pending = update_at y.pending h (some (releasing (get_json σ c y.store "leader")));
          until = update_at y.until h 0;
        })
    release_writes :
        (h : String) (r : Reading)
        → y.pending h ≡ some (releasing r)
        → view.HasRoom y.store
        → Step y (record y {
          store = (release_write σ c (lease h) r y.store).1;
          pending = update_at y.pending h none;
        })

  pub data Reach (y : System σ.St) : System σ.St → Type 0 where
    stays : Reach y y
    goes : {z w : System σ.St} → Reach y z → Step z w → Reach y w
