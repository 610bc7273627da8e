-- ===== src/Streaming.antt =====
-- pkg/streaming: how a node consumes the replication stream. `Wire` has the messages and `Consumer` the
-- consumer.
pub mod Wire
pub mod Consumer
mod Tests
