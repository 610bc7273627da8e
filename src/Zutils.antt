-- ===== src/Zutils.antt =====
-- pkg/zutils: `Fnv64` has the hash of texts, `Rendezvous` the choice of a node by the hashes of a key
-- and of the nodes, and `Base62` the digits of ids.
pub mod Fnv64
pub mod Rendezvous
pub mod Base62
mod Tests
