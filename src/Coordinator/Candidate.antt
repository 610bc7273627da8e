-- ===== src/Coordinator/Candidate.antt =====
-- pkg/coordinator/failover.go and backups.go: the loop that both `FailoverOnce` and `pickBackupNode`
-- make over the nodes, for the replica that is up and has applied the most.
pub mod Freshest
use zincsearch.Prelude.{
  ℕ, String, List, [], ◌∷◌, Bool, true, false, not, ◌&&◌, ◌||◌, str_eq, ltb, if◌then◌else◌, Option,
  none, some,
}
use zincsearch.Coordinator.Monitor.{
  NodeState, unknown, up, lagging, degraded, suspect, down, needs_restore, NodeStatus,
}

abbrev pub is_up : NodeState → Bool
is_up up = true
is_up _ = false

-- not skipped by `continue`
abbrev pub can_stand : String → NodeStatus → Bool
can_stand master s = not (str_eq s.name master) && is_up s.state

-- `candidate` and `freshest` of `FailoverOnce`
unfoldable pub elect : String → String → ℕ → List NodeStatus → String × ℕ
elect master candidate freshest [] = (candidate, freshest)
elect master candidate freshest (s ∷ rest) =
    let take = elect master s.name s.stream.last_applied rest in
    let skip = elect master candidate freshest rest in
    if can_stand master s && (str_eq candidate "" || ltb freshest s.stream.last_applied)
    then take
    else skip

unfoldable pub candidate : String → List NodeStatus → String
unfolding elect
candidate master statuses = (elect master "" 0 statuses).0

abbrev is_nil : Option String → Bool
is_nil none = true
is_nil (some _) = false

-- `best` and `freshest` of `pickBackupNode`
unfoldable pub pick : String → Option String → ℕ → List NodeStatus → Option String × ℕ
pick master best freshest [] = (best, freshest)
pick master best freshest (s ∷ rest) =
    let take = pick master (some s.name) s.stream.last_applied rest in
    let skip = pick master best freshest rest in
    if can_stand master s && (is_nil best || ltb freshest s.stream.last_applied) then take else skip

-- `pickBackupNode`; `none` is `ErrNoBackupNode`
unfoldable pub pick_backup_node : String → List NodeStatus → Option String
unfolding pick
pick_backup_node master statuses = (pick master none 0 statuses).0
