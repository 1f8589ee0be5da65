-- ===== src/Base/Checkpointers.antt =====
-- The other checkpointers of the package base.
pub mod Null
pub mod File
pub mod Cassandra
pub mod Kafka
mod Tests
