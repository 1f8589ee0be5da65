-- ===== src/Services/Stats.antt =====
-- services/stats_service.go: the topics of the Kafka cluster, written as statistics by a ticker.
mod Tests
use Prim.Native.String.{◌++◌ as append}
use descartes_legacy.Prelude.{
  ℕ, suc, String, Bool, true, false, Option, none, some, List, [], ◌∷◌, ◌++◌, map, if◌then◌else◌,
}
use descartes_legacy.Prelude.Int.{ℤ}
use descartes_legacy.Prelude.Map.{Map, index}
use descartes_legacy.Prelude.Decimal.{format_int}
use descartes_legacy.Prelude.Result.{Error}
use descartes_legacy.Base.Consts
use descartes_legacy.Base.Data.{Bytes, BaseConfig, Data, new_data, DataWriter}
use descartes_legacy.Base.KafkaClient.{Cluster, Returns, topic_partitions}

-- `topic=%s,partition=%d`
unfoldable pub event : String → ℤ → Bytes
event topic partition = append "topic=" (append topic (append ",partition=" (format_int partition)))

-- The config of the writer of the statistics.
unfoldable pub broker_config : BaseConfig → BaseConfig
broker_config config =
    (Consts.kafka_brokers, index Consts.kafka_brokers config)
    ∷ (Consts.kafka_topic, Consts.task_stats)
    ∷ []

unfoldable pub meta_info : String → Map String
meta_info hostname =
    (Consts.server_url, hostname)
    ∷ (Consts.app, Consts.kafka_app)
    ∷ (Consts.metric, "topic:partition")
    ∷ []

-- The data of one topic, and of all.
unfoldable pub topic_data : Map String → String → List ℤ → List Data
unfolding event
topic_data meta topic partitions = map (λ p. new_data meta (event topic p ∷ [])) partitions

unfoldable pub all_data : Map String → Map (List ℤ) → List Data
unfolding topic_data
all_data meta [] = []
all_data meta ((topic, partitions) ∷ rest) = topic_data meta topic partitions ++ all_data meta rest

module _ (cluster : Cluster) (writer : DataWriter) where
  -- `dumping` counts the goroutines that run dumpCurrentTopics.
  pub record StatsService : Type 0 where
    pub kafka_env : cluster.E
    pub started : Bool
    pub dumping : ℕ
    pub sink : writer.Sink

  -- Start: the test of the flag only logs.
  unfoldable pub start : StatsService → StatsService
  start ss = record ss { started = true; dumping = suc ss.dumping }

  -- Stop
  unfoldable pub stop : StatsService → StatsService
  stop ss = if ss.started then record ss { started = false } else ss

  -- The writes of a tick, whose errors are dropped.
  unfoldable pub write_each : List Data → writer.Sink → writer.Sink
  write_each [] w = w
  write_each (d ∷ ds) w = write_each ds (writer.write_data d w).1

  abbrev pub write_found :
      Map String → Returns cluster (Option (Map (List ℤ))) → StatsService → StatsService
  write_found meta (found, some m, e) ss = record ss { kafka_env = e }
  write_found meta (none, none, e) ss = record ss { kafka_env = e }
  write_found meta (some found, none, e) ss = record ss {
    kafka_env = e;
    sink = write_each (all_data meta found) ss.sink;
  }

  -- One tick of dumpCurrentTopics.
  unfoldable pub dump : String → StatsService → StatsService
  unfolding write_each all_data
  dump hostname ss = write_found (meta_info hostname) (topic_partitions cluster "" ss.kafka_env) ss
