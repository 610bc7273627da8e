-- ===== src/Coordinator/Failover/Epochs/Inv.antt =====
-- What holds of the store, of what the instances know and of the promotions so far; readings and
-- creations keep it.
use zincsearch.Prelude.{
  ℕ, String, [], ◌≡◌, ◌≢◌, str_eq, Option, none, some, ok, err, Bool-cases, inl, inr, ap, subst,
}
use zincsearch.Time.{Instant}
use zincsearch.State.Entry.{StateErr, Codec, IsCodec}
use zincsearch.State.Store.{Store, View, Written, Laws}
use zincsearch.State.Json.{get_json, create_json}
use zincsearch.State.Json.Laws.{create_json-ok, create_json-err}
use zincsearch.State.Json.Reading.{
  Holds, IsGood, reading-IsGood, Kept-IsGood, Written-IsGood, Kept-Holds,
}
use zincsearch.Coordinator.Failover.{Cluster, Promotion, Instance, cluster_key, initial}
use zincsearch.Coordinator.Failover.Epochs.{System, set_at, IsChain, IsLatest}

pub some_inj : {a b : Cluster × ℕ} → some a ≡ some b → a ≡ b
some_inj {a} {b} p = ap (λ (o : Option (Cluster × ℕ)). elim o [ none ↦ a | some x ↦ x ]) p

module _ {V : Type 0} {σ : Store V} {view : View σ} (laws : Laws view) {kc : Codec V Cluster}
    (codec : IsCodec kc) (cp : Codec V Promotion) where
  open view use {entry, top, IsWell, HasRoom}

  pub record Inv (y : System σ.St) : Type 0 where
    pub well : IsWell y.store
    pub good :
        (h : String) (r : Cluster × ℕ)
        → y.reading h ≡ some r
        → IsGood laws kc cluster_key y.store (ok r)
    pub latest :
        y.log ≢ [] → (cl : Cluster) × Holds laws kc cluster_key y.store cl × IsLatest cl y.log
    pub chain : IsChain y.log

  pub set_at-IsGood :
      (s : σ.St) (f : String → Option (Cluster × ℕ)) (h : String) (o : Option (Cluster × ℕ))
      → ((j : String) (r : Cluster × ℕ) → f j ≡ some r → IsGood laws kc cluster_key s (ok r))
      → ((r : Cluster × ℕ) → o ≡ some r → IsGood laws kc cluster_key s (ok r))
      → (j : String) (r : Cluster × ℕ) → set_at f h o j ≡ some r
      → IsGood laws kc cluster_key s (ok r)
  set_at-IsGood s f h o old new j r q = elim (Bool-cases (str_eq h j)) [
    | inl this ↦ new r (rw this at q)
    | inr other ↦ old j r (rw other at q)
  ]

  pub reads-Inv :
      (y : System σ.St) (h : String) (cl : Cluster) (rev : ℕ)
      → get_json σ kc y.store cluster_key ≡ ok (cl, rev)
      → Inv y
      → Inv (record y { reading = set_at y.reading h (some (cl, rev)) })
  reads-Inv y h cl rev p inv = record {
    well = inv.well;
    good =
        set_at-IsGood y.store y.reading h (some (cl, rev)) inv.good
          (λ r e. reading-IsGood laws kc cluster_key y.store (ok r) inv.well (cc));
    latest = inv.latest;
    chain = inv.chain;
  }

  -- A value that was just written is what the store holds, and what its writer knows.
  pub update-Holds :
      (s s' : σ.St) (v : V) (n : ℕ) (cl : Cluster)
      → kc.marshal cl ≡ some v
      → Written view s cluster_key v n s'
      → Holds laws kc cluster_key s' cl
  update-Holds s s' v n cl m w = (
    record { key = cluster_key; value = v; revision = n },
    w.entries cluster_key,
    codec.read_back cl v m,
  )

  pub update-known :
      (s s' : σ.St) (v : V) (n : ℕ) (cl : Cluster)
      → kc.marshal cl ≡ some v
      → Written view s cluster_key v n s'
      → IsGood laws kc cluster_key s' (ok (cl, n))
  update-known s s' v n cl m w = (
    laws.revision_le s' cluster_key _ w.well (w.entries cluster_key),
    λ e p q. cc (p, w.entries cluster_key, codec.read_back cl v m),
  )

  -- The first state is written; whether its writer knows is `f`.
  created-Inv :
      (y : System σ.St) (s' : σ.St) (f : String → Option (Cluster × ℕ)) (v : V) (n : ℕ)
      → Inv y
      → Written view y.store cluster_key v n s'
      → entry y.store cluster_key ≡ none
      → ((h : String) (r : Cluster × ℕ) → f h ≡ some r → IsGood laws kc cluster_key s' (ok r))
      → Inv (record y { store = s'; reading = f })
  created-Inv y s' f v n inv w was known = record {
    well = w.well;
    good = known;
    latest = λ some_log. let (cl, (e, there, _), _) = inv.latest some_log in cc (was, there);
    chain = inv.chain;
  }

  old-IsGood :
      (y : System σ.St) (s' : σ.St) (v : V) (n : ℕ)
      → Inv y
      → Written view y.store cluster_key v n s'
      → (h : String) (r : Cluster × ℕ) → y.reading h ≡ some r
      → IsGood laws kc cluster_key s' (ok r)
  old-IsGood y s' v n inv w h r q =
      Written-IsGood laws kc cluster_key y.store s' cluster_key v n (ok r) w (inv.good h r q)

  pub creates-Inv :
      (y : System σ.St) (h : String) (i : Instance) (now : Instant) (rev : ℕ)
      → HasRoom y.store
      → (create_json σ kc y.store cluster_key (initial i now)).0 ≡ ok rev
      → Inv y
      → Inv (record y {
        store = (create_json σ kc y.store cluster_key (initial i now)).1;
        reading = set_at y.reading h (some (initial i now, rev));
      })
  creates-Inv y h i now rev room p inv =
      let (v, m, w, was) =
        create_json-ok laws kc y.store cluster_key (initial i now) rev inv.well room p in
      created-Inv y _ _ v rev inv w was (
        set_at-IsGood _ y.reading h _ (old-IsGood y _ v rev inv w) (λ r q.
          subst
            (λ (x : Cluster × ℕ).
              IsGood laws kc cluster_key (create_json σ kc y.store cluster_key (initial i now)).1
                (ok x))
            (some_inj q) (update-known y.store _ v rev (initial i now) m w)))

  pub fails_to_create-Inv :
      (y : System σ.St) (i : Instance) (now : Instant) (e : StateErr)
      → HasRoom y.store
      → (create_json σ kc y.store cluster_key (initial i now)).0 ≡ err e
      → Inv y
      → Inv (record y { store = (create_json σ kc y.store cluster_key (initial i now)).1 })
  fails_to_create-Inv y i now e room p inv =
      elim (create_json-err laws kc y.store cluster_key (initial i now) e inv.well room p) [
        | inl k ↦ record {
          well = k.well;
          good = λ h r q. Kept-IsGood laws kc cluster_key y.store _ (ok r) k (inv.good h r q);
          latest = λ ne.
              let (cl, held, last) = inv.latest ne in
              (cl, Kept-Holds laws kc cluster_key y.store _ cl k held, last);
          chain = inv.chain;
        }
        | inr (v, n, m, w, was) ↦ created-Inv y _ y.reading v n inv w was (old-IsGood y _ v n inv w)
      ]
