-- ===== src/Lib.antt =====
-- A verification library for descartes: tasks are scheduled by one elected service, published to
-- Kafka, carried out by collectors on other hosts, and the collected data are written to a sink.
--
-- The parts and their files. Paths on the right are those of the repository.
--   Prelude            texts, decimals, integers with wrap-around, maps, sorting, times, and Go's
--                      results and panics
--   Base/Consts        base/consts.go: the keys of the configurations
--   Base/Data          base/base_config.go, data_writer.go, checkpointer.go: the data, and the
--                      interfaces of a sink and a checkpointer with the laws that clients rely on
--   Base/Job           base/job.go: jobs and their order
--   Base/Scheduler     base/scheduler.go: the tree of the jobs and the loop that calls them
--   Base/KafkaClient   base/kafka.go: leaders, offsets and partitions
--   Base/ZooKeeper     base/zookeeper_client.go, zookeeper_checkpointer.go: election and nodes
--   Base/Scheduler/Timetable, Refinement   the same as a table of times, which it refines
--   Base/Checkpointers base/checkpointer.go, file_checkpointer.go, cassandra_checkpointer.go and
--                      kafka_checkpointer.go
--   Sources/Kafka      sources/kafka/kafka_data_reader.go: the consumer with its saved offsets
--   Sources/Snow       sources/snow/snow_data_reader.go: the records of a table, polled
--   Sinks/Splunk, Sinks/Rest   sinks/splunk: posts to several splunkds
--   Sinks/Kafka        sinks/kafka/kafka_data_writer.go: a producer and its life cycle
--   Sinks/Memory       sinks/memory/memory_data_writer.go: a channel between two parts
--   Services/Topic     services/job_factory.go: the topics of tasks
--   Services/JobFactory   services/job_factory.go: the creation of jobs and the cache of clients
--   Services/Schedule  services/schedule_service.go: the tables of tasks and their jobs
--   Services/Hosts     services/schedule_service.go: the live collectors and the choice of a host
--   Services/Publish   services/schedule_service.go: leadership and the publishing of tasks
--   Services/Monitor   services/kafka_topic_monitor.go: a job for each partition of a topic
--   Services/Collect   services/collect_service.go: the tasks that a collector carries out, and
--                      its heartbeats
--   Services/Stats     services/stats_service.go: the topics as statistics
--   Program            descartes.go and mgmt/task_config_writer.go: the configs of the tasks
--
-- A function, method or type has its Go name in snake_case or UpperCamelCase. A struct is a record,
-- and a method takes and returns the record. A Go pair of a value and an error is a Result, or a
-- pair where both come back; a panic is a value of Outcome. The jobs are objects in a store, shared
-- by the tree, the tables and the callers through their addresses. A goroutine with a select is a
-- function over the list of the events that it receives. The clock and the random numbers are
-- arguments. int64 and int32 values wrap around.
--
-- What other packages do is a parameter: sarama (Cluster, and the arguments of Sinks/Kafka), go-
-- zookeeper (Conn), GoLLRB (OrderedTree), net/http (Http, SnowServer), gocql (Cassandra), the
-- file system (FileSystem, Files) and the JSON codecs (Codec, SnowCodec, `unmarshal`,
-- `marshal`). The laws of an interface are fields of its record or named hypotheses. Between
-- parts there are interfaces too: DataWriter and Checkpointer, which the Kafka reader and the
-- Snow reader take and Sinks/Memory fills, JobFactory, by which a collector creates its jobs,
-- and Parts, the constructors that the job factory calls. The Snow reader uses the
-- buffer of its data again, so its writer has to be done with the data when it returns, as one is
-- that encodes or posts them; Sinks/Memory, which keeps them in a channel, is not.
--
-- Fuel and bounds: pop_ready runs on the size of the tree, of which each round takes one job, and
-- leader_loop, write_data_loop and save_offset_loop on the retries of the code. mkdir_recursive
-- runs on the bytes of its path, one for each level. The channel of Sinks/Memory holds 16 data.
--
-- Not modelled: logging, sleeps between attempts, the waiting of a send on the full channels of
-- the scheduler, of the Splunk writer and of the published tasks, the constructors, starts and stops
-- of the services, which call those of their parts, the HTTP headers of the
-- Snow reader, and the flags and signals of the program.
pub mod Prelude
pub mod Base
pub mod Sinks
pub mod Sources
pub mod Services
pub mod Program
