-- ===== src/Coordinator/Failover.antt =====
-- pkg/coordinator/failover.go: the shared decision about who is master. Each operation is a function
-- of the instance, the clock and the store; where another instance may act between two calls of the
-- store, the part after the first call is a function of what it gave.
pub mod Calls
pub mod Epochs
pub mod Decision
use zincsearch.Prelude.{
  ℕ, zero, suc, ◌+◌, ◌%◌, ◌^◌, String, List, [], ◌∷◌, Bool, true, false, not, ◌&&◌, ◌||◌, str_eq,
  if◌then◌else◌, Option, none, some, Result, ok, err,
}
use zincsearch.Prelude.Int.{ltb_ℤ}
use zincsearch.Dict.{Dict}
use zincsearch.Text.{cat, fixed}
use zincsearch.Time.{Instant, sub}
use zincsearch.State.Entry.{
  StateErr, not_found, conflict, invalid_key, bad_json, unavailable, Codec,
}
use zincsearch.State.Store.{Store}
use zincsearch.State.Json.{get_json, create_json, update_json}
use zincsearch.Coordinator.Config.{NodeConfig, Config, is_one_of}
use zincsearch.Coordinator.Monitor.{
  NodeState, unknown, up, lagging, degraded, suspect, down, needs_restore, NodeStatus, node_status,
  node_statuses,
}
use zincsearch.Coordinator.Candidate.{candidate}

pub record Cluster : Type 0 where
  pub master : String
  pub epoch : ℕ  -- uint64
  pub changed_at : Instant
  pub reason : String

pub record Promotion : Type 0 where
  pub epoch : ℕ
  pub from : String
  pub to : String
  pub at : Instant
  pub reason : String

abbrev pub cluster_key : String
cluster_key = "cluster"

-- One coordinator instance. The names of the nodes are `order`, and the keys of `c.nodes`.
pub record Instance : Type 0 where
  pub cfg : Config
  pub order : List String
  pub cluster : Cluster
  pub status : Dict NodeStatus

pub data FailoverErr : Type 0 where
  unknown_master : String → FailoverErr  -- the state names a node that is not configured
  unknown_node : String → FailoverErr
  cannot_become_master : String → NodeState → FailoverErr
  of_state : StateErr → FailoverErr
  out_of_fuel : FailoverErr

-- `ClusterState` and `Master`, less the connection data of the node
abbrev pub current_master : Instance → Option String
current_master i = if is_one_of i.cluster.master i.order then some i.cluster.master else none

-- `order[0]`; `New` refuses a configuration with no nodes
abbrev pub first_node : List String → String
first_node [] = ""
first_node (n ∷ ns) = n

abbrev pub initial : Instance → Instant → Cluster
initial i now = record {
  master = first_node i.order;
  epoch = 1;
  changed_at = now;
  reason = "initial";
}

-- the next decision, made from the current one
abbrev pub next_cluster : Cluster → String → String → Instant → Cluster
next_cluster cl to reason at = record {
  master = to;
  epoch = (cl.epoch + 1) % 2 ^ 64;
  changed_at = at;
  reason = reason;
}

abbrev pub history_entry : Cluster → Cluster → Promotion
history_entry cl next = record {
  epoch = next.epoch;
  from = cl.master;
  to = next.master;
  at = next.changed_at;
  reason = next.reason;
}

-- `fmt.Sprintf("history/%020d", epoch)`
unfoldable pub history_key : ℕ → String
unfolding fixed
history_key epoch = cat "history/" (fixed 20 epoch)

abbrev pub state_name : NodeState → String
state_name unknown = "unknown"
state_name up = "up"
state_name lagging = "lagging"
state_name degraded = "degraded"
state_name suspect = "suspect"
state_name down = "down"
state_name needs_restore = "needs_restore"

-- The master is gone: nothing else makes `FailoverOnce` act.
abbrev pub is_gone : NodeState → Bool
is_gone down = true
is_gone needs_restore = true
is_gone _ = false

-- the states in which `Promote` refuses a node
abbrev pub is_refused : NodeState → Bool
is_refused down = true
is_refused suspect = true
is_refused unknown = true
is_refused needs_restore = true
is_refused _ = false

-- `FailoverOnce` between its reading of the state and `promote`: the node to promote, or "".
unfoldable pub decide : Instance → Instant → Cluster → String
decide i now cl =
    if not (is_gone (node_status i.status cl.master).state)
    then ""
    else if ltb_ℤ (sub now cl.changed_at) i.cfg.promote_cooldown
    then ""
    else candidate cl.master (node_statuses i.status i.order)

-- the `reason` that `FailoverOnce` gives
abbrev pub gone_reason : Instance → Cluster → String
gone_reason i cl =
    cat (cat (cat "master " cl.master) " is ") (state_name (node_status i.status cl.master).state)

-- What a promotion did: its result, the instance and the store after it, and the node that was told
-- to resume, if one was.
pub record Promoted (St : Type 0) : Type 0 where
  pub result : Result FailoverErr (Unit {0})
  pub instance_after : Instance
  pub store : St
  pub resumed : Option String

module _ {V : Type 0} (σ : Store V) (kc : Codec V Cluster) (cp : Codec V Promotion) where
  -- `loadCluster` from the answer of its `GetJSON` on; `again` is its recursive call
  known : Instance → Cluster × ℕ → Result FailoverErr (Cluster × ℕ)
  known i (cl, rev) =
      if is_one_of cl.master i.order then ok (cl, rev) else err (unknown_master cl.master)

  created :
      Cluster
      → (σ.St → Result FailoverErr (Cluster × ℕ) × σ.St)
      → Result StateErr ℕ × σ.St
      → Result FailoverErr (Cluster × ℕ) × σ.St
  created cl again (ok rev, s) = (ok (cl, rev), s)
  created cl again (err conflict, s) = again s
  created cl again (err not_found, s) = (err (of_state not_found), s)
  created cl again (err invalid_key, s) = (err (of_state invalid_key), s)
  created cl again (err bad_json, s) = (err (of_state bad_json), s)
  created cl again (err unavailable, s) = (err (of_state unavailable), s)

  loaded :
      Instance
      → Instant
      → (σ.St → Result FailoverErr (Cluster × ℕ) × σ.St)
      → Result StateErr (Cluster × ℕ)
      → σ.St
      → Result FailoverErr (Cluster × ℕ) × σ.St
  unfolding known created
  loaded i now again (ok r) s = (known i r, s)
  loaded i now again (err not_found) s =
      created (initial i now) again (create_json σ kc s cluster_key (initial i now))
  loaded i now again (err conflict) s = (err (of_state conflict), s)
  loaded i now again (err invalid_key) s = (err (of_state invalid_key), s)
  loaded i now again (err bad_json) s = (err (of_state bad_json), s)
  loaded i now again (err unavailable) s = (err (of_state unavailable), s)

  -- `loadCluster`; it calls itself again when another instance was first to create the state
  unfoldable pub load_cluster :
      ℕ → Instance → Instant → σ.St → Result FailoverErr (Cluster × ℕ) × σ.St
  unfolding loaded
  load_cluster zero i now s = (err out_of_fuel, s)
  load_cluster (suc fuel) i now s =
      loaded i now (λ s'. load_cluster fuel i now s') (get_json σ kc s cluster_key) s

  -- `refreshCluster`
  abbrev pub adopt : Instance → Result FailoverErr (Cluster × ℕ) → Instance
  adopt i (ok (cl, rev)) = record i { cluster = cl }
  adopt i (err e) = i

  unfoldable pub refresh_cluster : ℕ → Instance → Instant → σ.St → Instance × σ.St
  unfolding load_cluster
  refresh_cluster fuel i now s = let (r, s') = load_cluster fuel i now s in (adopt i r, s')

  -- `promote` from the answer of its `UpdateJSON` on: the history entry is written, whether or not
  -- that succeeds, and a node that is paused is told to resume.
  promoted : Instance → Cluster → Cluster → Result StateErr ℕ × σ.St → Promoted σ.St
  promoted i cl next (err e, s) = record {
    result = err (of_state e);
    instance_after = i;
    store = s;
    resumed = none;
  }
  promoted i cl next (ok rev, s) = record {
    result = ok tt;
    instance_after = record i { cluster = next };
    store = (create_json σ cp s (history_key next.epoch) (history_entry cl next)).1;
    resumed = if (node_status i.status next.master).stream.paused then some next.master else none;
  }

  -- `promote`
  unfoldable pub promote : Instance → Instant → Cluster → ℕ → String → String → σ.St → Promoted σ.St
  unfolding promoted
  promote i at cl rev to reason s =
      let next = next_cluster cl to reason at in
      promoted i cl next (update_json σ kc s cluster_key next rev)
