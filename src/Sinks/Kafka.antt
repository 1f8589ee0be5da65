-- ===== src/Sinks/Kafka.antt =====
-- sinks/kafka/kafka_data_writer.go: the producer and its life cycle. The producers of sarama and
-- the JSON encoding are parameters.
pub mod Lifecycle
mod Tests
use descartes_legacy.Prelude.{
  ℕ, String, Bool, true, false, not, ◌||◌, Option, none, some, List, [], ◌∷◌, ◌++◌, if◌then◌else◌,
  str_eq, ◌==◌,
}
use descartes_legacy.Prelude.Map.{index, insert}
use descartes_legacy.Prelude.Result.{Result, ok, err, Error}
use descartes_legacy.Base.Consts
use descartes_legacy.Base.Data.{Data, Bytes, BaseConfig}

abbrev pub stopped : ℕ
stopped = 0

abbrev pub initial_started : ℕ
initial_started = 1

abbrev pub started : ℕ
started = 2

pub record ProducerMessage : Type 0 where
  pub topic : String
  pub key : String
  pub value : Bytes

-- The state of the writer, and what was handed to the two producers.
pub record KafkaDataWriter : Type 0 where
  pub broker_config : BaseConfig
  pub state : ℕ
  pub async_input : List ProducerMessage
  pub sync_sent : List ProducerMessage
  pub watching_errors : Bool
  pub sync_closed : Bool
  pub async_closed : Bool

-- NewKafkaDataWriter after the two producers answered `async_error` and `sync_error`. The config
-- comes back too: it is the caller's map, in which Key is set.
unfoldable pub new_kafka_data_writer :
    Error → Error → BaseConfig → Option KafkaDataWriter × BaseConfig
new_kafka_data_writer async_error sync_error broker_config =
    if str_eq (index Consts.kafka_topic broker_config) ""
      || str_eq (index Consts.kafka_brokers broker_config) ""
    then (none, broker_config)
    else let config =
        if str_eq (index Consts.key broker_config) ""
        then insert Consts.key (index Consts.kafka_topic broker_config) broker_config
        else broker_config in
      elim async_error [
        | some _ ↦ (none, config)
        | none ↦ elim sync_error [
          | some _ ↦ (none, config)
          | none ↦ (
            some (record {
              broker_config = config;
              state = initial_started;
              async_input = [];
              sync_sent = [];
              watching_errors = false;
              sync_closed = false;
              async_closed = false;
            }),
            config,
          )
        ]
      ]

-- Start
unfoldable pub start : KafkaDataWriter → KafkaDataWriter
start w =
    if w.state == initial_started then record w { state = started; watching_errors = true } else w

-- Stop
unfoldable pub stop : KafkaDataWriter → KafkaDataWriter
stop w =
    if w.state == started
    then record w { state = stopped; sync_closed = true; async_closed = true }
    else w

module _ (marshal : Data → Result Bytes)
    (send_message : ProducerMessage → KafkaDataWriter → Error) where
  -- prepareData
  unfoldable pub prepare_data : KafkaDataWriter → Data → Result ProducerMessage
  prepare_data w d = elim (marshal d) [
    | err e ↦ err e
    | ok payload ↦ ok (record {
      topic = index Consts.kafka_topic w.broker_config;
      key = index Consts.key w.broker_config;
      value = payload;
    })
  ]

  -- WriteDataAsync
  unfoldable pub write_data_async : Data → KafkaDataWriter → Error × KafkaDataWriter
  unfolding prepare_data
  write_data_async d w = elim (prepare_data w d) [
    | err e ↦ (some e, w)
    | ok msg ↦
        if not (w.state == stopped)
        then (none, record w { async_input = w.async_input ++ msg ∷ [] })
        else (none, w)
  ]

  -- WriteDataSync
  unfoldable pub write_data_sync : Data → KafkaDataWriter → Error × KafkaDataWriter
  unfolding prepare_data
  write_data_sync d w = elim (prepare_data w d) [
    | err e ↦ (some e, w)
    | ok msg ↦ elim (send_message msg w) [
      | some e ↦ (some e, w)
      | none ↦ (none, record w { sync_sent = w.sync_sent ++ msg ∷ [] })
    ]
  ]

  -- WriteData: the config value "0" selects the synchronous write.
  unfoldable pub write_data : Data → KafkaDataWriter → Error × KafkaDataWriter
  unfolding write_data_async write_data_sync
  write_data d w =
      if str_eq (index Consts.sync_write w.broker_config) "0"
      then write_data_sync d w
      else write_data_async d w
