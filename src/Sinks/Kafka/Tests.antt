-- ===== src/Sinks/Kafka/Tests.antt =====
-- A writer of sinks/kafka/kafka_data_writer.go that is started, written to and stopped.
use descartes_legacy.Prelude.{◌≡◌, refl, arith, none, List, [], ◌∷◌, true, false}
use descartes_legacy.Prelude.Result.{Result, ok, Error}
use descartes_legacy.Prelude.Map.{index, lookup}
use descartes_legacy.Base.Consts
use descartes_legacy.Base.Data.{Data, Bytes}
use descartes_legacy.Sinks.Kafka.{
  KafkaDataWriter, ProducerMessage, initial_started, stopped, write_data, start, stop,
  write_data_async, prepare_data,
}
use descartes_legacy.Sinks.Kafka.Lifecycle.{Call, calls, IsConsistent, calls-IsConsistent, call}

abbrev marshal : Data → Result Bytes
marshal d = ok "{}"

abbrev send : ProducerMessage → KafkaDataWriter → Error
send m w = none

abbrev hello : Data
hello = record { meta_info = []; raw_data = "hello" ∷ [] }

abbrev fresh : KafkaDataWriter
fresh = record {
  broker_config = (Consts.kafka_topic, "t") ∷ (Consts.key, "k") ∷ [];
  state = initial_started;
  async_input = [];
  sync_sent = [];
  watching_errors = false;
  sync_closed = false;
  async_closed = false;
}

abbrev closed : KafkaDataWriter
closed = record fresh { state = stopped; sync_closed = true; async_closed = true }

abbrev life : List Call
life = Call.start_call ∷ Call.write hello ∷ Call.stop_call ∷ Call.write hello ∷ []

fresh-IsConsistent : IsConsistent fresh
fresh-IsConsistent = record {
  known = λ e. ground arith;
  both_closed = refl;
  closed = λ e. ground arith;
  watched = λ e. ground arith;
}

one_message :
    (calls marshal send life fresh).async_input
    ≡ record { topic = "t"; key = "k"; value = "{}" } ∷ []
unfolding calls call write_data start stop write_data_async prepare_data index lookup
one_message = refl

calls-IsConsistent_example : IsConsistent (calls marshal send life fresh)
calls-IsConsistent_example = calls-IsConsistent marshal send life fresh fresh-IsConsistent
