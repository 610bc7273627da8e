-- ===== src/State.antt =====
-- pkg/coordinator/state: the coordinator's key/value store. `Entry` has its errors, keys and
-- entries, `Store` the interface, `Mem` the store in memory, `Json` the helpers on JSON values,
-- `Lease` the lock of the leader election and `Election` its instances at work.
pub mod Entry
pub mod Store
pub mod Mem
pub mod Json
pub mod Lease
pub mod Election
mod Tests
