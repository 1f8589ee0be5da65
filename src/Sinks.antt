-- ===== src/Sinks.antt =====
-- The writers: the packages sinks/splunk, sinks/kafka and sinks/memory.
pub mod Rest
pub mod Splunk
pub mod Kafka
pub mod Memory
