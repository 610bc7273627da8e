-- ===== src/State/Lease.antt =====
-- pkg/coordinator/state/state.go: `Lease`, the lock with an expiry that elects the leader. `Acquire`
-- reads the clock twice, before and after it reads the store; both readings are arguments. Its two
-- calls of the store are two functions, between which other instances may act.
pub mod Outcome
use zincsearch.Prelude.{
  ℕ, String, Bool, true, false, not, ◌&&◌, str_eq, if◌then◌else◌, Result, ok, err,
}
use zincsearch.Time.{Instant, Duration, zero_time, before, add}
use zincsearch.State.Entry.{
  StateErr, not_found, conflict, invalid_key, bad_json, unavailable, Codec,
}
use zincsearch.State.Store.{Store}
use zincsearch.State.Json.{get_json, create_json, update_json}

-- `leaseRecord`
pub record LeaseRecord : Type 0 where
  pub holder : String
  pub expires : Instant

-- `Lease`, less the store and the clock, which are arguments
pub record Lease : Type 0 where
  pub key : String
  pub holder : String
  pub ttl : Duration

-- what `GetJSON` gave
abbrev pub Reading : Type 0
Reading = Result StateErr (LeaseRecord × ℕ)

-- `tryLease` of pkg/coordinator/coordinator.go: the new value of `leader`. An error counts as not
-- holding the lease.
abbrev pub leads : Result StateErr Bool → Bool
leads (ok b) = b
leads (err _) = false

module _ {V : Type 0} (σ : Store V) (c : Codec V LeaseRecord) where
  -- how `Acquire` reads the result of its `CreateJSON`
  after_create : Result StateErr ℕ × σ.St → Result StateErr Bool × σ.St
  after_create (ok _, s) = (ok true, s)
  after_create (err conflict, s) = (ok false, s)
  after_create (err not_found, s) = (err not_found, s)
  after_create (err invalid_key, s) = (err invalid_key, s)
  after_create (err bad_json, s) = (err bad_json, s)
  after_create (err unavailable, s) = (err unavailable, s)

  -- and that of its `UpdateJSON`
  after_update : Result StateErr ℕ × σ.St → Result StateErr Bool × σ.St
  after_update (ok _, s) = (ok true, s)
  after_update (err conflict, s) = (ok false, s)
  after_update (err not_found, s) = (ok false, s)
  after_update (err invalid_key, s) = (err invalid_key, s)
  after_update (err bad_json, s) = (err bad_json, s)
  after_update (err unavailable, s) = (err unavailable, s)

  abbrev pub mine : Lease → Instant → LeaseRecord
  mine l start = record { holder = l.holder; expires = add start l.ttl }

  -- `Acquire` from the reading on
  unfoldable pub acquire_write :
      Lease → Instant → Instant → Reading → σ.St → Result StateErr Bool × σ.St
  unfolding after_create after_update
  acquire_write l start now (err not_found) s =
      after_create (create_json σ c s l.key (mine l start))
  acquire_write l start now (err conflict) s = (err conflict, s)
  acquire_write l start now (err invalid_key) s = (err invalid_key, s)
  acquire_write l start now (err bad_json) s = (err bad_json, s)
  acquire_write l start now (err unavailable) s = (err unavailable, s)
  acquire_write l start now (ok (current, rev)) s =
      if not (str_eq current.holder l.holder) && before now current.expires
      then (ok false, s)
      else after_update (update_json σ c s l.key (mine l start) rev)

  -- `Acquire` with nothing in between
  unfoldable pub acquire : Lease → Instant → Instant → σ.St → Result StateErr Bool × σ.St
  unfolding acquire_write
  acquire l start now s = acquire_write l start now (get_json σ c s l.key) s

  after_release : Result StateErr ℕ × σ.St → Result StateErr (Unit {0}) × σ.St
  after_release (ok _, s) = (ok tt, s)
  after_release (err conflict, s) = (ok tt, s)
  after_release (err not_found, s) = (err not_found, s)
  after_release (err invalid_key, s) = (err invalid_key, s)
  after_release (err bad_json, s) = (err bad_json, s)
  after_release (err unavailable, s) = (err unavailable, s)

  -- `Release` from the reading on
  unfoldable pub release_write : Lease → Reading → σ.St → Result StateErr (Unit {0}) × σ.St
  unfolding after_release
  release_write l (err not_found) s = (ok tt, s)
  release_write l (err conflict) s = (err conflict, s)
  release_write l (err invalid_key) s = (err invalid_key, s)
  release_write l (err bad_json) s = (err bad_json, s)
  release_write l (err unavailable) s = (err unavailable, s)
  release_write l (ok (current, rev)) s =
      if str_eq current.holder l.holder
      then after_release (update_json σ c s l.key (record current { expires = zero_time }) rev)
      else (ok tt, s)

  unfoldable pub release : Lease → σ.St → Result StateErr (Unit {0}) × σ.St
  unfolding release_write
  release l s = release_write l (get_json σ c s l.key) s
