-- ===== src/Lib.antt =====
-- The verification library of ZincSearch: the coordinator, the stream, and the logs of an index.
--
-- A cluster of ZincSearch nodes consumes one NATS JetStream stream. Coordinator instances watch the
-- nodes, elect a leader among themselves through a lease in a shared key/value store, and keep in
-- the same store which node is master.
--
-- State (pkg/coordinator/state): `State/Entry` has the errors, `ValidKey` and the entries;
-- `State/Store` the interface `Store`, with its promises as the record `Laws`: the errors that the
-- interface names say what the store holds, and after any other error, such as a lost connection,
-- what was to be written is stored or not; `State/Mem` has the store in memory (`Get`, `Create`,
-- `Update`, `Delete`, `List`), and the modules under it are about those promises, with `Listing`
-- for the order of the keys and `Answers` for the errors; `State/Json` has `GetJSON`, `CreateJSON`
-- and `UpdateJSON`; `State/Lease` has `Acquire` and `Release`, each split after its reading of the
-- store, and `State/Election` the instances whose readings and writes interleave (with `Run` and
-- `tryLease` of pkg/coordinator/coordinator.go).
--
-- Coordinator (pkg/coordinator): `Coordinator/Config` has `Config.defaults`; `Coordinator/Monitor`
-- has `classify`, `PollOnce`, `NodeStatuses` of monitor.go, with the answers of the nodes as
-- arguments in the order in which they arrive; `Coordinator/Candidate` the loops of `FailoverOnce`
-- and `pickBackupNode` over the nodes; `Coordinator/Failover` and its modules `loadCluster`,
-- `refreshCluster`, `promote`, `FailoverOnce`, `Promote` and `History` of failover.go, and
-- `Coordinator/Failover/Epochs` the promotions of several instances over one store, whatever node
-- each picks.
--
-- `Coordinator/Buffer` has the durable queue of buffer/buffer.go over the database bbolt, which is
-- an interface (`Bolt`, with what is relied on in `Coordinator/Buffer/Laws`); its modules under
-- `Queue` relate the file to a queue. `Coordinator/Publisher` has `publish`, which holds a mutex,
-- and `drain`, which does not, of publisher.go, each from one call of the buffer or the stream to
-- the next, and `Coordinator/Publisher/Order` their interleaving. `Coordinator/Admission` has
-- `Admit` of coordinator.go, and `Coordinator/Backups` the schedules, `listBackupRecords`,
-- `LatestUsable` and `Prune` of backups.go, with
-- `Coordinator/Backups/Deleting` for what its deletions do to the stores.
--
-- Streaming (pkg/streaming): `Streaming/Wire` has the messages and `Decode` of wire/wire.go;
-- `Streaming/Consumer` has `prepare`, `checkGap`, `step` and `applyOne` of consumer.go, with the
-- engine, its flush and the offset store behind an interface, and a log of what was done;
-- `Streaming/Consumer/Justified` is about why a message of that log was passed over.
--
-- Core (pkg/core): `Core/Engine` has the index writer of riot and the log of zincsearch/wal as an
-- interface; `Core/Shards` the second layer shards of index_shards.go; `Core/Documents` the
-- operations of index_document.go, which write entries to a shard's log; `Core/Merge` the
-- `walMergeDocs` of index_shards_wal.go, and `Core/Wal` its `ConsumeWAL` and `Rollback`, over the
-- records of a redo log as an interface, which `Core/RedoText` fills with their texts in the file.
--
-- `Core/Aliases` has the list of aliases of aliaslist.go, where a removal keeps the slice as the
-- part before the loop, the part in it and what is cut off.
--
-- Redo (pkg/wal/redo): `Redo` has `Open`, `Write` and `Read` of redo.go over the bytes of the file,
-- `Redo/Handing` the part of the bytes that `Read` hands out with `NoCopy`, `Redo/Bytes` what
-- copying to and slicing bytes do, `Redo/WellFormed` the layout of the file, which `Redo/NewBlock`
-- and `Redo/Reading` show to be kept, and `Redo/Reopening` and `Redo/History` the log that is
-- opened again.
--
-- Zutils (pkg/zutils): `Zutils/Fnv64` has the hash of hash/fnv64, `Zutils/Rendezvous` the node that
-- hash/rendezvous gives a key (its `Scores` and `Moves` are about the best node and about added
-- nodes), and `Zutils/Base62` has `Encode` and `Decode` of base62/base62.go.
--
-- Prelude, Dict, Time and Text are shared: results, lists, Go's maps, instants and texts.
--
-- Numbers are natural numbers, and a uint64 wraps (`% 2 ^ 64`); durations are int64 and saturate
-- where Go's do. `encoding/json` is a parameter, with what is read back as a hypothesis. The
-- recursion of `loadCluster`, which calls itself when another instance was first to create the
-- state, takes fuel; out of it, it fails with an error of its own. The retries of `applyOne`
-- recurse on the sleeps that its context still lets through. The loop of `Remove` in the buffer
-- takes one turn more as fuel than there are items, and deletes one at each turn. The digits of
-- `Encode` take 11 as fuel, since 62 ^ 11 is above 2 ^ 63, and those of `%d` 20, since 10 ^ 20 is
-- above 2 ^ 64; `math.Pow` is a parameter, exact for 62 ^ 10 and below. The loop of `Open` in the
-- redo log has as many turns as there are blocks of 80 bytes, and the loop of
-- `RemoveIndexesFromAlias` as many as there are indexes.
--
-- In `Coordinator/Failover/Epochs` a step is a reading, a creation of the first state or a
-- promotion; each of the writes may fail, and may be stored all the same. The loops of `ConsumeWAL`
-- and `Rollback` recurse on the number of entries that are left.
--
-- Not modelled: the lookup of several nodes in hash/rendezvous, whose sort leaves equal scores in
-- any order, the clients of NATS, rqlite, S3 and of the nodes' HTTP API, handlers, routes and
-- settings, the mapping checks, searches and statistics of the index core, the translation of
-- queries and the text analysis.
mod Prelude
pub mod Dict
pub mod Time
pub mod Text
pub mod State
pub mod Coordinator
pub mod Streaming
pub mod Core
pub mod Redo
pub mod Zutils
