-- ===== src/Coordinator/Failover/Calls/Takeover.antt =====
-- What `FailoverOnce` has done when it reports a new master.
use zincsearch.State.Store.{Store}
