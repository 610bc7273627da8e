-- ===== src/Coordinator/Failover/Epochs.antt =====
-- Several instances decide over one store: their readings and writes of the cluster state interleave
-- in any way. `Chain` proves that the promotions that are stored form one chain.
pub mod Inv
pub mod Chain
use text.Mathlib.Text.{starts_with}
use text.Mathlib.TextPositions.{starts_with-append}
use zincsearch.Prelude.{
  ℕ, ◌+◌, ◌%◌, ◌^◌, String, List, [], ◌∷◌, ◌≡◌, ◌≢◌, false≢true, Bool, true, false, str_eq, eq_iff,
  if◌then◌else◌, Option, none, some, Result, ok, err, Result-cases, Bool-cases, inl, inr, refl, sym,
  ap, subst, arith, ◌⊎◌,
}
use zincsearch.Time.{Instant}
use zincsearch.State.Entry.{StateErr, Entry, Codec, IsCodec}
use zincsearch.State.Store.{Store, View, Written, Kept, Laws}
use zincsearch.State.Json.{get_json, create_json, update_json}
use zincsearch.State.Json.Laws.{create_json-ok, create_json-err, update_json-ok, update_json-err}
use zincsearch.State.Json.Reading.{
  Holds, IsGood, reading-IsGood, Kept-IsGood, Written-IsGood, Kept-Holds, Written-Holds,
}
use zincsearch.Coordinator.Failover.{
  Cluster, Promotion, Instance, FailoverErr, of_state, cluster_key, initial, next_cluster,
  history_entry, history_key, Promoted, promoted, promote,
}

abbrev pub Known : Type 0
Known = Result StateErr (Cluster × ℕ)

-- What each instance last read of the cluster state, and the promotions that are stored, the
-- latest first.
pub record System (St : Type 0) : Type 0 where
  pub store : St
  pub reading : String → Option (Cluster × ℕ)
  pub log : List Promotion

abbrev pub set_at :
    (String → Option (Cluster × ℕ)) → String → Option (Cluster × ℕ) → String → Option (Cluster × ℕ)
set_at f k a j = if str_eq k j then a else f j

module _ {V : Type 0} (σ : Store V) (view : View σ) (kc : Codec V Cluster)
    (cp : Codec V Promotion) where
  -- What writing the next decision did: it is stored, whether or not the call returned an error, and
  -- then it is in the log, or the store holds what it held.
  abbrev pub Logs : σ.St → Cluster → Cluster → σ.St → List Promotion → List Promotion → Type 0
  Logs s cl next s' log log' =
      (((v : V) × (n : ℕ) × (kc.marshal next ≡ some v) × Written view s cluster_key v n s')
        × (log' ≡ history_entry cl next ∷ log))
      ⊎ (Kept view s s' × (log' ≡ log))

  pub data Step (y : System σ.St) : System σ.St → Type 0 where
    reads :
        (h : String) (cl : Cluster) (rev : ℕ)
        → get_json σ kc y.store cluster_key ≡ ok (cl, rev)
        → Step y (record y { reading = set_at y.reading h (some (cl, rev)) })
    creates :
        (h : String) (i : Instance) (now : Instant) (rev : ℕ)
        → view.HasRoom y.store
        → (create_json σ kc y.store cluster_key (initial i now)).0 ≡ ok rev
        → Step y (record y {
          store = (create_json σ kc y.store cluster_key (initial i now)).1;
          reading = set_at y.reading h (some (initial i now, rev));
        })
    fails_to_create :  -- another instance was first, or the store has failed, written or not
        (i : Instance) (now : Instant) (e : StateErr)
        → view.HasRoom y.store
        → (create_json σ kc y.store cluster_key (initial i now)).0 ≡ err e
        → Step y (record y { store = (create_json σ kc y.store cluster_key (initial i now)).1 })
    promotes :
        (h : String) (i : Instance) (at : Instant) (cl : Cluster) (rev : ℕ) (to reason : String)
        → y.reading h ≡ some (cl, rev)
        → view.HasRoom y.store
        → view.HasRoom (update_json σ kc y.store cluster_key (next_cluster cl to reason at) rev).1
        → (log : List Promotion)
        → Logs y.store cl
            (next_cluster cl to reason at)
            (update_json σ kc y.store cluster_key (next_cluster cl to reason at) rev).1
            y.log
            log
        → Step y (record {
          store = (promote σ kc cp i at cl rev to reason y.store).store;
          reading = set_at y.reading h none;
          log = log;
        })

  pub data Reach (y : System σ.St) : System σ.St → Type 0 where
    stays : Reach y y
    goes : {z w : System σ.St} → Reach y z → Step z w → Reach y w

  abbrev pub start : σ.St → System σ.St
  start s = record { store = s; reading = λ h. none; log = [] }

-- Each promotion follows on the one before it: it takes over from the node that was promoted there,
-- in the next epoch, a uint64.
abbrev pub Follows : Promotion → List Promotion → Type 0
Follows p [] = Unit
Follows p (q ∷ rest) = (p.from ≡ q.to) × (p.epoch ≡ (q.epoch + 1) % 2 ^ 64)

abbrev pub IsChain : List Promotion → Type 0
IsChain [] = Unit
IsChain (p ∷ log) = Follows p log × IsChain log

-- The cluster state is the decision of the latest promotion.
abbrev pub IsLatest : Cluster → List Promotion → Type 0
IsLatest cl [] = Unit
IsLatest cl (p ∷ log) = (cl.master ≡ p.to) × (cl.epoch ≡ p.epoch)
