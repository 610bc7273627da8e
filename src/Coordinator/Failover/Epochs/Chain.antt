-- ===== src/Coordinator/Failover/Epochs/Chain.antt =====
-- The promotions of several instances form one chain, however their calls interleave.
use text.Mathlib.Text.{starts_with}
use text.Mathlib.TextPositions.{starts_with-append}
use zincsearch.Prelude.{
  ℕ, String, List, [], ◌∷◌, ◌≡◌, ◌≢◌, false≢true, true, false, str_eq, eq_iff, none, some, Result,
  ok, err, Result-cases, Bool-cases, inl, inr, refl, sym, subst, ◌∙◌, ◌⊎◌, arith,
}
use zincsearch.Time.{Instant}
use zincsearch.State.Entry.{StateErr, Entry, Codec, IsCodec}
use zincsearch.State.Store.{Store, View, Laws, Kept, Written, Expected}
use zincsearch.State.Json.{create_json, update_json}
use zincsearch.State.Json.Laws.{create_json-ok, create_json-err, update_json-ok, update_json-err}
use zincsearch.State.Json.Reading.{
  Holds, IsGood, Kept-IsGood, Written-IsGood, Kept-Holds, Written-Holds,
}
use zincsearch.Coordinator.Failover.{
  Cluster, Promotion, Instance, cluster_key, next_cluster, history_entry, history_key, promoted,
  promote,
}
use zincsearch.Coordinator.Failover.Epochs.{
  Known, System, set_at, Logs, reads, creates, fails_to_create, promotes, Reach, stays, goes, start,
  Follows, IsChain, IsLatest,
}
use zincsearch.Coordinator.Failover.Epochs.Inv.{
  Inv, set_at-IsGood, reads-Inv, update-Holds, creates-Inv, fails_to_create-Inv,
}

history_key-ne : (n : ℕ) → str_eq (history_key n) cluster_key ≡ false
unfolding history_key
history_key-ne n = elim (Bool-cases (str_eq (history_key n) cluster_key)) [
  | inr h ↦ h
  | inl h ↦
      let same : history_key n ≡ cluster_key = (eq_iff _ _).0 h in
      let begins : starts_with (history_key n) "history/" ≡ true =
        starts_with-append "history/" _ in
      let wrong : starts_with cluster_key "history/" ≡ true = rw same at begins in
      absurd (false≢true wrong)
]

module _ {V : Type 0} (σ : Store V) (kc : Codec V Cluster) (cp : Codec V Promotion) (i : Instance)
    (cl next : Cluster) where
  -- After the decision is written, the history entry is, or nothing.
  store-promoted :
      (out : Result StateErr ℕ × σ.St)
      → ((promoted σ kc cp i cl next out).store ≡ out.1)
        ⊎ ((promoted σ kc cp i cl next out).store
            ≡ (create_json σ cp out.1 (history_key next.epoch) (history_entry cl next)).1)
  unfolding promoted
  store-promoted (ok m, s) = inr refl
  store-promoted (err e, s) = inl refl

module _ {V : Type 0} {σ : Store V} {view : View σ} (laws : Laws view) {kc : Codec V Cluster}
    (codec : IsCodec kc) (cp : Codec V Promotion) where
  open view use {entry, top, IsWell, HasRoom}

  -- What the cluster state is, and what is known of it, is the same in both stores.
  record Same (s s' : σ.St) : Type 0 where
    well : IsWell s'
    good : (r : Known) → IsGood laws kc cluster_key s r → IsGood laws kc cluster_key s' r
    held : (cl : Cluster) → Holds laws kc cluster_key s cl → Holds laws kc cluster_key s' cl

  self-Same : (s : σ.St) → IsWell s → Same s s
  self-Same s w = record { well = w; good = λ r g. g; held = λ cl h. h }

  Kept-Same : (s s' : σ.St) → Kept view s s' → Same s s'
  Kept-Same s s' k = record {
    well = k.well;
    good = λ r g. Kept-IsGood laws kc cluster_key s s' r k g;
    held = λ cl h. Kept-Holds laws kc cluster_key s s' cl k h;
  }

  history-Same :
      (s s' : σ.St) (n : ℕ) (v : V) (rev : ℕ) → Written view s (history_key n) v rev s' → Same s s'
  history-Same s s' n v rev w = record {
    well = w.well;
    good = λ r g. Written-IsGood laws kc cluster_key s s' (history_key n) v rev r w g;
    held = λ cl h.
        Written-Holds laws kc cluster_key s s' (history_key n) v rev cl w (history_key-ne n) h;
  }

  -- The history entry, written or not, leaves the cluster state.
  create_history-Same :
      (s : σ.St) (n : ℕ) (p : Promotion)
      → IsWell s
      → HasRoom s
      → Same s (create_json σ cp s (history_key n) p).1
  create_history-Same s n p w room = elim (Result-cases (create_json σ cp s (history_key n) p).0) [
    | inl (rev, done) ↦
        let (v, _, wr, _) = create_json-ok laws cp s (history_key n) p rev w room done in
        history-Same s _ n v rev wr
    | inr (e, failed) ↦ elim (create_json-err laws cp s (history_key n) p e w room failed) [
      | inl k ↦ Kept-Same s _ k
      | inr (v, rev, _, wr, _) ↦ history-Same s _ n v rev wr
    ]
  ]

  promoted-Same :
      (i : Instance) (cl next : Cluster) (out : Result StateErr ℕ × σ.St)
      → IsWell out.1
      → HasRoom out.1
      → Same out.1 (promoted σ kc cp i cl next out).store
  promoted-Same i cl next out w room = elim (store-promoted σ kc cp i cl next out) [
    | inl e ↦ subst (Same out.1) (sym e) (self-Same out.1 w)
    | inr e ↦
        subst (Same out.1) (sym e)
          (create_history-Same out.1 next.epoch (history_entry cl next) w room)
  ]

  -- A decision that is stored replaced the one that was read.
  stored-Expected :
      (s : σ.St) (next : Cluster) (rev n : ℕ) (v : V)
      → IsWell s
      → HasRoom s
      → Written view s cluster_key v n (update_json σ kc s cluster_key next rev).1
      → Expected view s cluster_key rev
  stored-Expected s next rev n v well room w =
      elim (Result-cases (update_json σ kc s cluster_key next rev).0) [
        | inl (m, done) ↦ (update_json-ok laws kc s cluster_key next rev m well room done).3
        | inr (e, failed) ↦
            elim (update_json-err laws kc s cluster_key next rev e well room failed) [
              | inl k ↦
                  let now = w.entries cluster_key in
                  let then' = k.entries cluster_key in
                  let old : entry s cluster_key
                      ≡ some (record { key = cluster_key; value = v; revision = n }) =
                    sym then' ∙ now in
                  let le = laws.revision_le s cluster_key _ well old in
                  absurd (omega (arith, le, w.fresh))
              | inr (_, _, _, _, was) ↦ was
            ]
      ]

  -- What a promotion by an instance that read `cl` adds to the log.
  follows :
      (y : System σ.St) (cl : Cluster) (rev : ℕ) (to reason : String) (at : Instant) (e : Entry V)
      → Inv laws codec cp y
      → IsGood laws kc cluster_key y.store (ok (cl, rev))
      → entry y.store cluster_key ≡ some e
      → e.revision ≡ rev
      → (log : List Promotion) → log ≡ y.log
      → Follows (history_entry cl (next_cluster cl to reason at)) log
  follows y cl rev to reason at e inv known there eq [] p = tt
  follows y cl rev to reason at e inv known there eq (q ∷ log) p =
      let (cl', (e', there', value), latest) = inv.latest (λ n. cc (p, n)) in
      let same : cl ≡ cl' = cc (known.1 e there eq, there, there', value) in
      let last : IsLatest cl' (q ∷ log) = subst (IsLatest cl') (sym p) latest in
      (cc (same, last.0), rw (same, last.1))

  -- The log, the readings and the store once the decision is written or not.
  decided-Inv :
      (y : System σ.St) (h : String) (cl : Cluster) (rev : ℕ) (to reason : String) (at : Instant)
      (log : List Promotion)
      → y.reading h ≡ some (cl, rev)
      → HasRoom y.store
      → Inv laws codec cp y
      → let next = next_cluster cl to reason at in
        let s' = (update_json σ kc y.store cluster_key next rev).1 in
        Logs σ view kc cp y.store cl next s' y.log log
        → Inv laws codec cp (record { store = s'; reading = set_at y.reading h none; log = log })
  decided-Inv y h cl rev to reason at log read room inv (inr (k, same)) =
      let s' = (update_json σ kc y.store cluster_key (next_cluster cl to reason at) rev).1 in
      subst
        (λ l. Inv laws codec cp (record { store = s'; reading = set_at y.reading h none; log = l }))
        (sym same)
        (record {
          well = k.well;
          good =
              set_at-IsGood laws codec cp s' y.reading h none
                (λ j r q. Kept-IsGood laws kc cluster_key y.store s' (ok r) k (inv.good j r q))
                (λ r q. cc);
          latest = λ ne.
              let (cl', held, last) = inv.latest ne in
              (cl', Kept-Holds laws kc cluster_key y.store s' cl' k held, last);
          chain = inv.chain;
        })
  decided-Inv y h cl rev to reason at log read room inv (inl ((v, n, m, w), more)) =
      let next = next_cluster cl to reason at in
      let s' = (update_json σ kc y.store cluster_key next rev).1 in
      let (e, there, eq) = stored-Expected y.store next rev n v inv.well room w in
      subst
        (λ l. Inv laws codec cp (record { store = s'; reading = set_at y.reading h none; log = l }))
        (sym more)
        (record {
          well = w.well;
          good =
              set_at-IsGood laws codec cp s' y.reading h none
                (λ j r q.
                  Written-IsGood laws kc cluster_key y.store s' cluster_key v n (ok r) w
                    (inv.good j r q))
                (λ r q. cc);
          latest = λ _. (next, update-Holds laws codec cp y.store s' v n next m w, (refl, refl));
          chain = (
            follows y cl rev to reason at e inv (inv.good h (cl, rev) read) there eq y.log refl,
            inv.chain,
          );
        })

  Same-Inv :
      (y : System σ.St) (s' : σ.St)
      → Same y.store s'
      → Inv laws codec cp y
      → Inv laws codec cp (record y { store = s' })
  Same-Inv y s' e inv = record {
    well = e.well;
    good = λ h r q. e.good (ok r) (inv.good h r q);
    latest = λ ne. let (cl, held, last) = inv.latest ne in (cl, e.held cl held, last);
    chain = inv.chain;
  }

  promotes-Inv :
      (y : System σ.St) (h : String) (i : Instance) (at : Instant) (cl : Cluster) (rev : ℕ)
      (to reason : String) (log : List Promotion)
      → y.reading h ≡ some (cl, rev)
      → HasRoom y.store
      → HasRoom (update_json σ kc y.store cluster_key (next_cluster cl to reason at) rev).1
      → Logs σ view kc cp y.store cl
          (next_cluster cl to reason at)
          (update_json σ kc y.store cluster_key (next_cluster cl to reason at) rev).1
          y.log
          log
      → Inv laws codec cp y
      → Inv laws codec cp (record {
        store = (promote σ kc cp i at cl rev to reason y.store).store;
        reading = set_at y.reading h none;
        log = log;
      })
  unfolding promote
  promotes-Inv y h i at cl rev to reason log read room room' logs inv =
      let next = next_cluster cl to reason at in
      let out = update_json σ kc y.store cluster_key next rev in
      let decided = decided-Inv y h cl rev to reason at log read room inv logs in
      Same-Inv (record { store = out.1; reading = set_at y.reading h none; log = log }) _
        (promoted-Same i cl next out decided.well room') decided

  Reach-Inv :
      {y z : System σ.St} → Reach σ view kc cp y z → Inv laws codec cp y → Inv laws codec cp z
  Reach-Inv stays inv = inv
  Reach-Inv (goes {z = y} r (reads h cl rev p)) inv =
      reads-Inv laws codec cp y h cl rev p (Reach-Inv r inv)
  Reach-Inv (goes {z = y} r (creates h i now rev room p)) inv =
      creates-Inv laws codec cp y h i now rev room p (Reach-Inv r inv)
  Reach-Inv (goes {z = y} r (fails_to_create i now e room p)) inv =
      fails_to_create-Inv laws codec cp y i now e room p (Reach-Inv r inv)
  Reach-Inv (goes {z = y} r (promotes h i at cl rev to reason p room room' log logs)) inv =
      promotes-Inv y h i at cl rev to reason log p room room' logs (Reach-Inv r inv)

  -- Over any store that keeps the promises of the interface, with any interleaving of the readings
  -- and writes of any instances, whatever node each of them promotes, where a write that fails for a
  -- reason that the interface does not name may have been done or not: every promotion that is
  -- stored, those that returned an error among them, takes over from the node of the one before, in
  -- the next epoch, so no two instances ever promote from one decision; and the stored cluster state
  -- names the master and the epoch of the latest.
  -- What is stored as JSON is read back, and the revisions do not run out.
  pub promotions_follow_on :
      (s : σ.St) {y : System σ.St}
      → IsWell s
      → Reach σ view kc cp (start σ view kc cp s) y
      → IsChain y.log
        × (y.log ≢ [] → (cl : Cluster) × Holds laws kc cluster_key y.store cl × IsLatest cl y.log)
  promotions_follow_on s w reach =
      let inv =
        Reach-Inv reach
          (record { well = w; good = λ h r q. cc; latest = λ ne. absurd (ne refl); chain = tt }) in
      (inv.chain, inv.latest)
