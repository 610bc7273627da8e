-- ===== src/Coordinator/Monitor.antt =====
-- pkg/coordinator/monitor.go: what the coordinator makes of the answers of the nodes;
-- pkg/coordinator/node.go: `StreamStatus`, what a node answers.
pub mod Polls
use zincsearch.Prelude.{
  ℕ, zero, suc, ◌+◌, String, List, [], ◌∷◌, Bool, true, false, not, ◌||◌, ltb, ◌==◌, if◌then◌else◌,
  Option, none, some, Result, ok, err,
}
use zincsearch.Prelude.Int.{pos, leb_ℤ}
use zincsearch.Dict
use zincsearch.Dict.{Dict}
use zincsearch.Text.{contains}
use zincsearch.Time.{Instant, zero_time, is_zero}
use zincsearch.Coordinator.Config.{Config}

pub data NodeState : Type 0 where
  unknown up lagging degraded suspect down needs_restore : NodeState

pub record StreamStatus : Type 0 where
  pub connected : Bool
  pub paused : Bool
  pub drained : Bool
  pub stream : String
  pub consumer : String
  pub last_applied : ℕ
  pub stream_last : ℕ
  pub lag : ℕ
  pub applied_total : ℕ
  pub skipped_total : ℕ
  pub last_error : String
  pub last_error_time : String

abbrev pub no_stream : StreamStatus
no_stream = record {
  connected = false;
  paused = false;
  drained = false;
  stream = "";
  consumer = "";
  last_applied = 0;
  stream_last = 0;
  lag = 0;
  applied_total = 0;
  skipped_total = 0;
  last_error = "";
  last_error_time = "";
}

pub record NodeStatus : Type 0 where
  pub name : String
  pub url : String
  pub state : NodeState
  pub failures : ℕ  -- an int; it counts polls and does not reach 2^63
  pub last_seen : Instant
  pub stream : StreamStatus
  pub error : String

abbrev pub gap_message : String
gap_message = "does not reach back"

abbrev pub ahead_message : String
ahead_message = "is ahead of the stream"

-- the test for `NodeNeedsRestore`
abbrev pub cannot_continue : String → Bool
cannot_continue e = contains e gap_message || contains e ahead_message

unfoldable pub classify : NodeStatus → Config → NodeState
classify s cfg =
    if leb_ℤ cfg.fail_threshold (pos s.failures)
    then down
    else if ltb 0 s.failures
    then suspect
    else if is_zero s.last_seen
    then unknown
    else if cannot_continue s.stream.last_error
    then needs_restore
    else if not s.stream.connected
    then degraded
    else if ltb cfg.max_lag s.stream.lag
    then lagging
    else up

-- What one question gave: the replication state, or the text of an error.
abbrev pub Answer : Type 0
Answer = Result String StreamStatus

heard : Config → Instant → NodeStatus → Answer → NodeStatus
heard cfg now s (err e) = record s { failures = s.failures + 1; error = e }
heard cfg now s (ok stream) = record s {
  failures = 0;
  error = "";
  last_seen = now;
  stream = stream;
}

-- the part of `PollOnce` that runs under the mutex for one node
unfoldable pub note_answer : Config → Instant → NodeStatus → Answer → NodeStatus
unfolding heard classify
note_answer cfg now s a = let s' = heard cfg now s a in record s' { state = classify s' cfg }

-- the zero value that a Go map gives for a missing key
abbrev pub no_status : NodeStatus
no_status = record {
  name = "";
  url = "";
  state = unknown;
  failures = 0;
  last_seen = zero_time;
  stream = no_stream;
  error = "";
}

abbrev pub or_zero : Option NodeStatus → NodeStatus
or_zero none = no_status
or_zero (some s) = s

-- `nodeStatus`
unfoldable pub node_status : Dict NodeStatus → String → NodeStatus
node_status status name = or_zero (Dict.get status name)

-- One answer that arrives: the node, the clock at that moment and the answer.
pub record Arrival : Type 0 where
  pub node : String
  pub at : Instant
  pub answer : Answer

-- `PollOnce`: the nodes are asked at once, and their answers are noted in the order in which they
-- arrive.
unfoldable pub poll_once : Config → Dict NodeStatus → List Arrival → Dict NodeStatus
unfolding note_answer node_status
poll_once cfg status [] = status
poll_once cfg status (a ∷ rest) =
    poll_once cfg
      (Dict.put status a.node (note_answer cfg a.at (node_status status a.node) a.answer)) rest

-- `NodeStatuses`: in configuration order
unfoldable pub node_statuses : Dict NodeStatus → List String → List NodeStatus
unfolding node_status
node_statuses status [] = []
node_statuses status (name ∷ order) = node_status status name ∷ node_statuses status order
