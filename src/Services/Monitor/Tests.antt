-- ===== src/Services/Monitor/Tests.antt =====
-- A monitor of one registered topic, which the cluster lists with two partitions.
use descartes_legacy.Prelude.{◌≡◌, refl, String, true, [], ◌∷◌, some}
use descartes_legacy.Prelude.Int.{ℤ, pos}
use descartes_legacy.Prelude.Map.{lookup, has, insert, index, copy_into}
use descartes_legacy.Base.Consts
use descartes_legacy.Base.Job.{publish_task_to_kafka}
use descartes_legacy.Base.Scheduler.Tree.{sorted_list}
use descartes_legacy.Services.Schedule.{Moment}
use descartes_legacy.Services.Monitor.{
  Partitions, KafkaMetaDataMonitor, check_new_topic_partitions, do_add_topic_config,
  check_partitions, check_partition, handle_new_partition, partition_config, with_topic, set_known,
  is_known,
}
use descartes_legacy.Services.Monitor.Settled.{check_new_topic_partitions_twice}
use descartes_legacy.Services.Monitor.Loop.{
  stats_topic_config, add_topic_config, new_kafka_meta_data_monitor, receive, round,
}
use descartes_legacy.Prelude.Text.{has_suffix}

abbrev monitor : KafkaMetaDataMonitor sorted_list
monitor = record {
  ss = record {
    job_scheduler = record {
      jobs = [];
      heap = λ a. record {
        f = some publish_task_to_kafka;
        when = pos 5;
        interval = pos 60;
        id = "1";
        params = [];
      };
      wakeup_chan = [];
      is_started = true;
      max_delay = pos 0;
      calls = [];
    };
    job_configs = [];
    jobs = [];
    config_chan = [];
    job_id = pos 0;
  };
  topic_partitions = [];
  topic_configs = ("t", (Consts.kafka_topic, "t") ∷ (Consts.interval, "15") ∷ []) ∷ [];
}

abbrev at : String → ℤ → Moment sorted_list
at topic id = record { now = pos 100; random = λ n. 0 }

abbrev latest : Partitions
latest = ("t", pos 0 ∷ pos 1 ∷ []) ∷ ("other", pos 0 ∷ []) ∷ []

both_are_known :
    (check_new_topic_partitions sorted_list at latest monitor).topic_partitions
    ≡ ("t", pos 1 ∷ pos 0 ∷ []) ∷ ("other", []) ∷ []
unfolding check_new_topic_partitions check_partitions check_partition handle_new_partition
    partition_config with_topic set_known is_known has lookup insert copy_into has_suffix
both_are_known = refl

check_new_topic_partitions_twice_example :
    check_new_topic_partitions sorted_list at latest
      (check_new_topic_partitions sorted_list at latest monitor)
    ≡ check_new_topic_partitions sorted_list at latest monitor
check_new_topic_partitions_twice_example =
    check_new_topic_partitions_twice sorted_list at at latest monitor

-- The topic that a new monitor registers itself is received in the first round.
stats_are_registered :
    has Consts.task_stats
      (round sorted_list receive
        (new_kafka_meta_data_monitor sorted_list [] monitor.ss)).topic_configs
    ≡ true
unfolding round new_kafka_meta_data_monitor add_topic_config stats_topic_config do_add_topic_config
    has lookup insert index copy_into
stats_are_registered = refl
