-- ===== src/Services/Monitor.antt =====
-- services/kafka_topic_monitor.go: the partitions of the topics that tasks registered each get a
-- job. The iteration over a Go map is one over its list of entries.
mod Known
pub mod Settled
pub mod Loop
mod Tests
use Prim.Native.String.{◌++◌ as append}
use descartes_legacy.Prelude.{
  ℕ, String, Bool, true, false, ◌||◌, Option, none, some, List, [], ◌∷◌, if◌then◌else◌,
}
use descartes_legacy.Prelude.Int.{ℤ, eqb_ℤ}
use descartes_legacy.Prelude.Map.{Map, lookup, has, insert, index, copy_into}
use descartes_legacy.Prelude.Text.{has_prefix, has_suffix}
use descartes_legacy.Prelude.Decimal.{format_int}
use descartes_legacy.Base.Consts
use descartes_legacy.Base.Data.{BaseConfig}
use descartes_legacy.Base.Scheduler.Tree.{OrderedTree}
use descartes_legacy.Services.Schedule.{ScheduleService, Moment, add_job}

-- map[string]map[int32]bool: the partitions of a topic that are set.
abbrev pub Partitions : Type 0
Partitions = Map (List ℤ)

abbrev pub member : ℤ → List ℤ → Bool
member id [] = false
member id (x ∷ xs) = eqb_ℤ x id || member id xs

abbrev pub ids_of : Option (List ℤ) → List ℤ
ids_of none = []
ids_of (some ids) = ids

unfoldable pub is_known : String → ℤ → Partitions → Bool
is_known topic id m = member id (ids_of (lookup topic m))

-- The map of a topic is made when it is missing.
unfoldable pub with_topic : String → Partitions → Partitions
with_topic topic m = if has topic m then m else insert topic [] m

unfoldable pub set_known : String → ℤ → Partitions → Partitions
set_known topic id m = insert topic (id ∷ ids_of (lookup topic m)) m

-- The config of the job that handleNewPartition adds, or `none` where it returns false.
unfoldable pub partition_config : String → ℤ → Map BaseConfig → Option BaseConfig
partition_config topic partition configs =
    if has_suffix topic "_ckpt" || has_prefix topic "_" then none else elim (lookup topic configs) [
      | none ↦ none
      | some topic_config ↦
          let config = insert Consts.app Consts.kafka_app (copy_into topic_config []) in
          let key = append topic (append "_" (format_int partition)) in
          some (
            insert Consts.kafka_partition (format_int partition)
              (insert Consts.task_config_key key config))
    ]

module _ (tree : OrderedTree) where
  pub record KafkaMetaDataMonitor : Type 0 where
    pub ss : ScheduleService tree
    pub topic_partitions : Partitions
    pub topic_configs : Map BaseConfig

  -- doAddTopicConfig
  unfoldable pub do_add_topic_config : BaseConfig → KafkaMetaDataMonitor → KafkaMetaDataMonitor
  do_add_topic_config config mon =
      if has Consts.kafka_topic config
      then record mon {
        topic_configs = insert (index Consts.kafka_topic config) config mon.topic_configs;
      }
      else mon

  abbrev pub add_partition_job :
      Moment tree → Option BaseConfig → KafkaMetaDataMonitor → Bool × KafkaMetaDataMonitor
  add_partition_job at none mon = (false, mon)
  add_partition_job at (some config) mon =
      (true, record mon { ss = (add_job tree at config mon.ss).1 })

  -- handleNewPartition: true, whether or not AddJob could create the job.
  unfoldable pub handle_new_partition :
      Moment tree → String → ℤ → KafkaMetaDataMonitor → Bool × KafkaMetaDataMonitor
  unfolding partition_config
  handle_new_partition at topic partition mon =
      add_partition_job at (partition_config topic partition mon.topic_configs) mon

  abbrev pub mark : String → ℤ → Bool × KafkaMetaDataMonitor → KafkaMetaDataMonitor
  mark topic id (false, mon) = mon
  mark topic id (true, mon) = record mon {
    topic_partitions = set_known topic id mon.topic_partitions;
  }

  -- One partition in checkNewTopicPartitions.
  unfoldable pub check_partition :
      Moment tree → String → ℤ → KafkaMetaDataMonitor → KafkaMetaDataMonitor
  check_partition at topic id mon =
      let mon' = record mon { topic_partitions = with_topic topic mon.topic_partitions } in
      if is_known topic id mon'.topic_partitions
      then mon'
      else mark topic id (handle_new_partition at topic id mon')

  -- The inner loop, with the moment at which a partition is handled.
  unfoldable pub check_partitions :
      (String → ℤ → Moment tree) → String → List ℤ → KafkaMetaDataMonitor → KafkaMetaDataMonitor
  unfolding check_partition
  check_partitions at topic [] mon = mon
  check_partitions at topic (id ∷ ids) mon =
      check_partitions at topic ids (check_partition (at topic id) topic id mon)

  -- checkNewTopicPartitions
  unfoldable pub check_new_topic_partitions :
      (String → ℤ → Moment tree) → Partitions → KafkaMetaDataMonitor → KafkaMetaDataMonitor
  unfolding check_partitions
  check_new_topic_partitions at [] mon = mon
  check_new_topic_partitions at ((topic, ids) ∷ latest) mon =
      check_new_topic_partitions at latest (check_partitions at topic ids mon)
