-- ===== src/Core.antt =====
-- pkg/core and pkg/wal: how an index takes documents in. `Engine` has what is outside, `Shards` the
-- second layer of a shard, `Documents` the operations that write to the log, `Merge` the documents
-- that the log's entries are merged into, `Wal` the consumption of the log, and `RedoText` the
-- records of its redo log. `Aliases` has the list of aliases.
pub mod Engine
pub mod Shards
pub mod Merge
pub mod Wal
pub mod Documents
pub mod Memory
pub mod RedoText
pub mod Aliases
mod Tests
