-- ===== src/Coordinator/Failover/Decision.antt =====
-- When `FailoverOnce` promotes, and whom.
use zincsearch.Prelude.{true, false, ◌≡◌}
use zincsearch.Prelude.Int.{ltb_ℤ}
use zincsearch.Time.{Instant, sub}
use zincsearch.Coordinator.Monitor.{node_status}
use zincsearch.Coordinator.Failover.{Cluster, Instance, is_gone}

-- The master is down or needs to be restored, and the last change of the master is long enough ago.
abbrev pub IsDue : Instance → Instant → Cluster → Type 0
IsDue i now cl =
    (is_gone (node_status i.status cl.master).state ≡ true)
    × (ltb_ℤ (sub now cl.changed_at) i.cfg.promote_cooldown ≡ false)
