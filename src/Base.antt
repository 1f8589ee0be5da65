-- ===== src/Base.antt =====
-- The package base: jobs, the scheduler, clients and checkpointers.
pub mod Consts
pub mod Data
pub mod Job
pub mod Scheduler
pub mod KafkaClient
pub mod ZooKeeper
pub mod Checkpointers
