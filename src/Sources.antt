-- ===== src/Sources.antt =====
-- The readers: the packages sources/kafka and sources/snow.
pub mod MemoryStore
pub mod Kafka
pub mod Snow
