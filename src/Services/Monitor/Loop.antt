-- ===== src/Services/Monitor/Loop.antt =====
-- The topic that the monitor of services/kafka_topic_monitor.go registers itself, and its loop over
-- ticks and configs. What TopicPartitions answers at a tick comes with the event.
use descartes_legacy.Prelude.{String, Option, none, some, List, [], ◌∷◌, ◌++◌}
use descartes_legacy.Prelude.Int.{ℤ}
use descartes_legacy.Prelude.Map.{index, insert, copy_into}
use descartes_legacy.Prelude.Result.{Result, ok, err}
use descartes_legacy.Base.Consts
use descartes_legacy.Base.Data.{BaseConfig}
use descartes_legacy.Base.Scheduler.Tree.{OrderedTree}
use descartes_legacy.Services.Schedule.{ScheduleService, Moment}
use descartes_legacy.Services.Monitor.{
  KafkaMetaDataMonitor, Partitions, do_add_topic_config, check_new_topic_partitions,
}

-- The config of the topic of the statistics.
unfoldable pub stats_topic_config : BaseConfig → BaseConfig
stats_topic_config config = insert Consts.server_url (index Consts.target_system config) (
    insert Consts.interval "15" (
      insert Consts.app Consts.kafka_app
        (insert Consts.kafka_topic Consts.task_stats (copy_into config []))))

module _ (tree : OrderedTree) where
  -- AddTopicConfig sends to the channel.
  unfoldable pub add_topic_config :
      BaseConfig → KafkaMetaDataMonitor tree → KafkaMetaDataMonitor tree
  add_topic_config config mon =
      let ss = mon.ss in
      record mon { ss = record ss { config_chan = ss.config_chan ++ config ∷ [] } }

  -- The channel is a new one.
  unfoldable pub new_kafka_meta_data_monitor :
      BaseConfig → ScheduleService tree → KafkaMetaDataMonitor tree
  unfolding add_topic_config stats_topic_config
  new_kafka_meta_data_monitor config ss =
      add_topic_config (stats_topic_config config)
        (record { ss = record ss { config_chan = [] }; topic_partitions = []; topic_configs = [] })

  -- A nil map has no entries.
  pub data Event : Type 0 where
    tick : (String → ℤ → Moment tree) → Result (Option Partitions) → Event
    receive : Event

  -- A config from the channel.
  abbrev pub add_received : List BaseConfig → KafkaMetaDataMonitor tree → KafkaMetaDataMonitor tree
  add_received [] mon = mon
  add_received (config ∷ configs) mon =
      let ss = mon.ss in
      do_add_topic_config tree config (record mon { ss = record ss { config_chan = configs } })

  -- One round of monitorNewTopicPartitions.
  unfoldable pub round : Event → KafkaMetaDataMonitor tree → KafkaMetaDataMonitor tree
  round (tick at (err _)) mon = mon
  round (tick at (ok none)) mon = mon
  round (tick at (ok (some latest))) mon = check_new_topic_partitions tree at latest mon
  round receive mon = add_received mon.ss.config_chan mon
