-- ===== src/Coordinator.antt =====
-- pkg/coordinator: the control plane of the cluster. `Config` has the settings and their defaults,
-- `Monitor` the polling of the nodes, `Candidate` the choice among the replicas, `Failover` the
-- decision who is master, `Buffer` and `Publisher` the way of a message to the stream, `Admission`
-- whether new builds may start, and `Backups` the stored backups.
pub mod Config
pub mod Monitor
pub mod Candidate
pub mod Failover
pub mod Buffer
pub mod Publisher
pub mod Admission
pub mod Backups
mod Tests
