-- ===== src/Coordinator/Failover/Calls.antt =====
-- pkg/coordinator/failover.go: `FailoverOnce`, `Promote` and `History`, with no other instance in
-- between. The clock is read by `loadCluster`, where it
-- creates the state, for the cooldown, by `promote`, and by `refreshCluster` on
-- a conflict; each reading is an argument.
pub mod Takeover
use zincsearch.Prelude.{
  ℕ, String, List, [], ◌∷◌, not, str_eq, if◌then◌else◌, Option, none, Result, ok, err, ◌>>=◌,
}
use zincsearch.Time.{Instant}
use zincsearch.State.Entry.{StateErr, Entry, conflict, Codec}
use zincsearch.State.Store.{Store}
use zincsearch.State.Json.{get_json}
use zincsearch.Coordinator.Config.{is_one_of}
use zincsearch.Coordinator.Monitor.{node_status}
use zincsearch.Coordinator.Failover.{
  Cluster, Promotion, Instance, FailoverErr, unknown_node, cannot_become_master, of_state,
  is_refused, decide, gone_reason, Promoted, load_cluster, refresh_cluster, promote,
}

-- the name of the new master, or "" when nothing changed
pub record FailedOver (St : Type 0) : Type 0 where
  pub result : Result FailoverErr String
  pub instance_after : Instance
  pub store : St
  pub resumed : Option String

module _ {V : Type 0} (σ : Store V) (kc : Codec V Cluster) (cp : Codec V Promotion) where
  -- how `FailoverOnce` reads the result of `promote`: on a conflict another instance decided first
  settle : ℕ → Instant → String → Promoted σ.St → Result FailoverErr (Unit {0}) → FailedOver σ.St
  settle fuel again to p (ok _) = record {
    result = ok to;
    instance_after = p.instance_after;
    store = p.store;
    resumed = p.resumed;
  }
  settle fuel again to p (err (of_state conflict)) =
      let (i, s) = refresh_cluster σ kc cp fuel p.instance_after again p.store in
      record { result = ok ""; instance_after = i; store = s; resumed = p.resumed }
  settle fuel again to p (err e) = record {
    result = err e;
    instance_after = p.instance_after;
    store = p.store;
    resumed = p.resumed;
  }

  failover_with : ℕ → Instance → Instant → Instant → Instant → Cluster → ℕ → σ.St → FailedOver σ.St
  unfolding settle
  failover_with fuel i now at again cl rev s =
      let to = decide i now cl in
      let p = promote σ kc cp i at cl rev to (gone_reason i cl) s in
      if str_eq to ""
      then record { result = ok ""; instance_after = i; store = s; resumed = none }
      else settle fuel again to p p.result

  -- `FailoverOnce`
  unfoldable pub failover_once :
      ℕ → Instance → Instant → Instant → Instant → Instant → σ.St → FailedOver σ.St
  unfolding failover_with
  failover_once fuel i first now at again s =
      let (r, s') = load_cluster σ kc cp fuel i first s in
      elim r [
        | err e ↦ record { result = err e; instance_after = i; store = s'; resumed = none }
        | ok (cl, rev) ↦ failover_with fuel (record i { cluster = cl }) now at again cl rev s'
      ]

  promote_from :
      Instance → Instant → String → Result FailoverErr (Cluster × ℕ) → σ.St → Promoted σ.St
  promote_from i at name (err e) s = record {
    result = err e;
    instance_after = i;
    store = s;
    resumed = none;
  }
  promote_from i at name (ok (cl, rev)) s =
      if str_eq cl.master name
      then record { result = ok tt; instance_after = i; store = s; resumed = none }
      else promote σ kc cp i at cl rev name "promoted by hand" s

  -- `Promote`, by hand
  unfoldable pub promote_by_hand : ℕ → Instance → Instant → Instant → String → σ.St → Promoted σ.St
  unfolding promote_from
  promote_by_hand fuel i now at name s =
      let (r, s') = load_cluster σ kc cp fuel i now s in
      let state = (node_status i.status name).state in
      if not (is_one_of name i.order)
      then record {
        result = err (unknown_node name);
        instance_after = i;
        store = s;
        resumed = none;
      }
      else if is_refused state
      then record {
        result = err (cannot_become_master name state);
        instance_after = i;
        store = s;
        resumed = none;
      }
      else promote_from i at name r s'

  -- the loop of `History`
  read_all : σ.St → List (Entry V) → Result StateErr (List Promotion)
  read_all s [] = ok []
  read_all s (e ∷ es) =
      let rest = read_all s es in (do (p, _) ← get_json σ cp s e.key; ps ← rest; ok (p ∷ ps))

  -- `History`, oldest first
  unfoldable pub history : σ.St → Result StateErr (List Promotion)
  unfolding read_all
  history s = σ.list s "history/" >>= λ entries. read_all s entries
