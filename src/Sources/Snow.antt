-- ===== src/Sources/Snow.antt =====
-- sources/snow/snow_data_reader.go: the records of a ServiceNow table, polled by their timestamps.
pub mod Records
pub mod Reader
pub mod Kept
pub mod Newest
pub mod Writes
pub mod Delivery
pub mod Collected
pub mod Repeats
pub mod Forgets
mod Tests
