-- ===== src/Coordinator/Tests.antt =====
-- Runs of the coordinator on two nodes, with its state in memory.
use zincsearch.State.Json.Laws.{create_json-ok, update_json-ok}
use zincsearch.Prelude.{
  sym, ◌∙◌, ℕ, String, ◌≡◌, ◌≢◌, refl, Option, none, some, [], ◌∷◌, List, arith, ok, err, Result,
  false, true, false≢true, eq_iff, if◌then◌else◌, str_eq, ◌↔◌, leb, length, inl, inr,
}
use zincsearch.Prelude.Int.{pos}
use zincsearch.Dict
use zincsearch.Dict.{Dict, get-empty}
use zincsearch.Time.{seconds, minutes, Instant}
use zincsearch.State.Entry.{Codec, IsCodec, not_found, conflict, StateErr}
use zincsearch.State.Json.{get_json, create_json, update_json}
use zincsearch.State.Json.Reading.{Holds}
use zincsearch.State.Store.{Written, Expected, Store}
use zincsearch.State.Json.Laws.{self-Kept, create_json-ok, update_json-ok}
use zincsearch.State.Mem
use zincsearch.State.Mem.{Mem, mem_store}
use zincsearch.State.Mem.Laws.{IsWell, mem_view, mem_laws}
use zincsearch.Prelude.{Any}
use zincsearch.Coordinator.Config.Valid.{IsValid, NoneZero, defaults-IsValid}
use zincsearch.Coordinator.Admission.{
  PublisherHealth, IsAvailable, admit, CanPublish, admit-allowed,
}
use zincsearch.Coordinator.Config.{defaults, Config}
use zincsearch.Coordinator.Monitor.{
  NodeState, up, suspect, down, StreamStatus, no_stream, NodeStatus, classify, Arrival, note_answer,
}
use zincsearch.Coordinator.Monitor.Polls.{note_all, down_at_threshold}
use zincsearch.Coordinator.Candidate.{candidate, pick_backup_node}
use zincsearch.Coordinator.Candidate.Freshest.{
  NoneStands, IsFreshest, IsNamed, named_option, candidate-IsFreshest, pick_backup_node-candidate,
}
use zincsearch.Coordinator.Failover.{
  Cluster, Promotion, Instance, cluster_key, initial, next_cluster, promote, history_entry,
  history_key,
}
use zincsearch.Coordinator.Failover.Epochs.{
  System, Reach, stays, goes, creates, reads, promotes, start, IsChain, IsLatest,
}
use zincsearch.Coordinator.Failover.Epochs.Chain.{promotions_follow_on}

abbrev cfg : Config
cfg = record {
  id = "one";
  nodes =
      record { name = "n1"; url = "http://n1"; user = ""; password = "" }
      ∷ record { name = "n2"; url = "http://n2"; user = ""; password = "" }
      ∷ [];
  poll_interval = seconds 2;
  poll_timeout = seconds 3;
  fail_threshold = pos 3;
  max_lag = 1000;
  promote_cooldown = minutes 1;
  lease_ttl = seconds 15;
  backup_interval = minutes 60;
  backup_retry = minutes 5;
  backup_retention = pos 3;
  orphan_grace = minutes 1440;
  drain_timeout = minutes 10;
  verify_interval = minutes 1440;
}

abbrev at_work : ℕ → StreamStatus
at_work applied = record no_stream {
  connected = true;
  last_applied = applied;
  stream_last = applied;
}

abbrev node : String → NodeState → ℕ → NodeStatus
node name state applied = record {
  name = name;
  url = "";
  state = state;
  failures = 0;
  last_seen = 1;
  stream = at_work applied;
  error = "";
}

abbrev n1 : NodeStatus
n1 = node "n1" down 9

abbrev n2 : NodeStatus
n2 = node "n2" up 8

abbrev both : Dict NodeStatus
both = ("n1", n1) ∷ ("n2", n2) ∷ []

abbrev minute : Instant
minute = 60_000_000_000

abbrev decided : Cluster
decided = record { master = "n1"; epoch = 4; changed_at = 1; reason = "initial" }

abbrev one : Instance
one = record { cfg = cfg; order = "n1" ∷ "n2" ∷ []; cluster = decided; status = both }

differ : (a b : String) → str_eq a b ≡ false → a ≢ b
differ a b h e = false≢true (sym h ∙ (eq_iff a b).1 e)

named : IsNamed (n1 ∷ n2 ∷ [])
named = (differ "n1" "" refl, (differ "n2" "" refl, tt))

-- Each node answers once, in this order.
abbrev answers : List Arrival
answers =
    record { node = "n2"; at = 5; answer = ok (at_work 8) }
    ∷ record { node = "n1"; at = 6; answer = err "timeout" }
    ∷ []

n2-is_up : classify n2 cfg ≡ up
unfolding classify zincsearch.Text.contains
n2-is_up = refl

abbrev polls : List (Instant × Result String StreamStatus)
polls = (6, err "timeout") ∷ (7, err "timeout") ∷ []

down_at_threshold_example :
    ((note_all cfg n2 ((5, err "timeout") ∷ polls)).state
      ≡ (if leb 3 (length ((5, err "timeout") ∷ polls)) then down else suspect))
    × ((at : Instant) (x : StreamStatus)
        → let s' = note_answer cfg at (note_all cfg n2 ((5, err "timeout") ∷ polls)) (ok x) in
          (s'.state ≢ down) × (s'.state ≢ suspect))
down_at_threshold_example = down_at_threshold cfg 2 n2 (5, err "timeout") polls refl refl tt

candidate-IsFreshest_example :
    (candidate "n1" (n1 ∷ n2 ∷ []) ≡ "" → NoneStands "n1" (n1 ∷ n2 ∷ []))
    × (candidate "n1" (n1 ∷ n2 ∷ []) ≢ ""
        → IsFreshest "n1" (candidate "n1" (n1 ∷ n2 ∷ [])) (n1 ∷ n2 ∷ []))
candidate-IsFreshest_example = candidate-IsFreshest "n1" (n1 ∷ n2 ∷ []) named

stands_for : candidate "n1" (n1 ∷ n2 ∷ []) ≡ "n2"
unfolding candidate
stands_for = refl

pick_backup_node-candidate_example :
    pick_backup_node "n1" (n1 ∷ n2 ∷ []) ≡ named_option (candidate "n1" (n1 ∷ n2 ∷ []))
pick_backup_node-candidate_example = pick_backup_node-candidate "n1" (n1 ∷ n2 ∷ []) named

-- The state of the coordinator in memory, with its JSON kept as it is.
data Json : Type 0 where
  of_cluster : Cluster → Json
  of_promotion : Promotion → Json

to_cluster : Json → Option Cluster
to_cluster (of_cluster cl) = some cl
to_cluster (of_promotion p) = none

to_promotion : Json → Option Promotion
to_promotion (of_cluster cl) = none
to_promotion (of_promotion p) = some p

abbrev kc : Codec Json Cluster
kc = record { marshal = λ cl. some (of_cluster cl); unmarshal = to_cluster }

abbrev cp : Codec Json Promotion
cp = record { marshal = λ p. some (of_promotion p); unmarshal = to_promotion }

to_cluster-of : (cl : Cluster) (v : Json) → some (of_cluster cl) ≡ some v → to_cluster v ≡ some cl
unfolding to_cluster
to_cluster-of cl (of_cluster x) p = cc
to_cluster-of cl (of_promotion x) p = cc

kc-IsCodec : IsCodec kc
kc-IsCodec = record { read_back = to_cluster-of }

abbrev stored : Mem Json
stored = record {
  entries = ("cluster", record { key = "cluster"; value = of_cluster decided; revision = 1 }) ∷ [];
  rev = 1;
}

new-IsWell : IsWell (Mem.new {V = Json})
new-IsWell = record {
  own_key = λ k e p. cc (get-empty k);
  key_valid = λ k e p. cc (get-empty k);
  revision_le = λ k e p. cc (get-empty k);
  distinct = tt;
}

abbrev begun : System (Mem Json)
begun = start (mem_store Json) (mem_view Json) kc cp (Mem.new {V = Json})

abbrev RunsTo : System (Mem Json) → Type 0
RunsTo y = Reach (mem_store Json) (mem_view Json) kc cp begun y

abbrev memory : Store Json
memory = mem_store Json

abbrev created : Mem Json
created = (create_json memory kc (Mem.new {V = Json}) cluster_key (initial one 1)).1

created-IsWell : IsWell created
unfolding create_json Mem.create zincsearch.State.Entry.valid_key Dict.get
created-IsWell =
    (create_json-ok mem_laws kc (Mem.new {V = Json}) cluster_key (initial one 1) 1 new-IsWell
      (omega arith) refl).2.well

abbrev next : Instant → Cluster
next at = next_cluster (initial one 1) "n2" "gone" at

abbrev updated : Mem Json
updated = (update_json memory kc created cluster_key (next 2) 1).1

-- The update from the first reading is stored.
stores :
    (v : Json) × (kc.marshal (next 2) ≡ some v)
    × Written (mem_view Json) created cluster_key v 2 updated
    × Expected (mem_view Json) created cluster_key 1
unfolding create_json Mem.create zincsearch.State.Entry.valid_key Dict.get Dict.put
    zincsearch.State.Json.update_json Mem.update
stores =
    update_json-ok mem_laws kc created cluster_key (next 2) 1 2 created-IsWell (omega arith) refl

abbrev first_done : Mem Json
first_done = (promote memory kc cp one 2 (initial one 1) 1 "n2" "gone" created).store

first_done-IsWell : IsWell first_done
unfolding create_json Mem.create zincsearch.State.Entry.valid_key Dict.get Dict.put
    zincsearch.State.Json.update_json Mem.update promote zincsearch.Coordinator.Failover.history_key
first_done-IsWell =
    (create_json-ok mem_laws cp updated (history_key 2) (history_entry (initial one 1) (next 2)) 3
      stores.2.well (omega arith) refl).2.well

-- Two instances read the first decision and promote from it; the second is refused.
race : (y : System (Mem Json)) × RunsTo y × (length y.log ≡ 1)
unfolding create_json Mem.create zincsearch.State.Entry.valid_key Dict.get get_json Mem.get Dict.put
    to_cluster zincsearch.State.Json.update_json Mem.update promote
    zincsearch.Coordinator.Failover.history_key
race = (
  _,
  goes
      (goes
        (goes (goes stays (creates "a" one 1 1 (omega arith) refl))
          (reads "b" (initial one 1) 1 refl))
        (promotes "a" one 2 (initial one 1) 1 "n2" "gone" refl (omega arith) (omega arith)
          (history_entry (initial one 1) (next 2) ∷ [])
          (inl ((stores.0, 2, stores.1, stores.2), refl))))
      (promotes "b" one 3 (initial one 1) 1 "n2" "gone" refl (omega arith) (omega arith)
        (history_entry (initial one 1) (next 2) ∷ [])
        (inr (self-Kept mem_laws kc first_done first_done-IsWell, refl))),
  refl,
)

promotions_follow_on_example :
    IsChain race.0.log
    × (race.0.log ≢ []
        → (cl : Cluster) × Holds mem_laws kc cluster_key race.0.store cl × IsLatest cl race.0.log)
promotions_follow_on_example =
    promotions_follow_on (mem_laws {V = Json}) kc-IsCodec cp (Mem.new {V = Json}) new-IsWell race.1

-- A configuration that sets nothing but its nodes.
abbrev bare : Config
bare = record cfg {
  id = "";
  poll_interval = pos 0;
  poll_timeout = pos 0;
  fail_threshold = pos 0;
  max_lag = 0;
  lease_ttl = pos 0;
  backup_interval = pos 0;
  orphan_grace = pos 0;
  drain_timeout = pos 0;
  verify_interval = pos 0;
}

fills : defaults "one" bare ≡ ok cfg
unfolding defaults zincsearch.State.Entry.valid_key
fills = refl

defaults-IsValid_example :
    (bare.nodes ≢ []) × IsValid [] bare.nodes × (cfg.nodes ≡ bare.nodes) × NoneZero cfg
defaults-IsValid_example = defaults-IsValid "one" bare cfg fills

abbrev healthy : PublisherHealth
healthy = record { connected = true; failing = false; congested = false }

admit-allowed_example :
    ((admit (some healthy) (n1 ∷ n2 ∷ [])).allowed ≡ true)
    ↔ (CanPublish (some healthy) × Any IsAvailable (n1 ∷ n2 ∷ []))
admit-allowed_example = admit-allowed (some healthy) (n1 ∷ n2 ∷ [])

admits : (admit (some healthy) (n1 ∷ n2 ∷ [])).allowed ≡ true
unfolding admit
admits = refl

turns_away : (admit none (n1 ∷ [])).reasons ≡ "no ZincSearch node is available" ∷ []
unfolding admit
turns_away = refl
