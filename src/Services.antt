-- ===== src/Services.antt =====
-- The package services: scheduling and collecting.
pub mod Topic
pub mod Schedule
pub mod Hosts
pub mod Monitor
pub mod Collect
pub mod JobFactory
pub mod Stats
pub mod Publish
