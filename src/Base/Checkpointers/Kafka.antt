-- ===== src/Base/Checkpointers/Kafka.antt =====
-- base/kafka_checkpointer.go: a checkpoint is the last message of a partition. The synchronous
-- producer is a parameter.
use descartes_legacy.Prelude.{String, Bool, false, Option, none, some}
use descartes_legacy.Prelude.Int.{ℤ, int32}
use descartes_legacy.Prelude.Map.{index}
use descartes_legacy.Prelude.Decimal.{parsed_value}
use descartes_legacy.Prelude.Result.{Error, Outcome, done, panic}
use descartes_legacy.Base.Consts
use descartes_legacy.Base.Data.{Bytes, BaseConfig}
use descartes_legacy.Base.KafkaClient.{Cluster, Returns, get_last_block}

-- sarama.ProducerMessage
pub record ProducerMessage : Type 0 where
  pub topic : String
  pub key : String
  pub value : Bytes
  pub partition : ℤ

abbrev pub partition_of : BaseConfig → ℤ
partition_of key_info = int32 (parsed_value (index Consts.checkpoint_partition key_info))

abbrev pub message_of : BaseConfig → Bytes → ProducerMessage
message_of key_info value = record {
  topic = index Consts.checkpoint_topic key_info;
  key = index Consts.checkpoint_key key_info;
  value = value;
  partition = partition_of key_info;
}

-- Stop: the flag says whether this call closes the producer.
unfoldable pub stop : Bool → Bool × Bool
stop started = (false, started)

module _ (cluster : Cluster) (send_message : ProducerMessage → cluster.E → Error × cluster.E) where
  -- GetCheckpoint: the value with an error is nil.
  abbrev pub or_nil : Returns cluster (Option Bytes) → Returns cluster (Option Bytes)
  or_nil (v, none, e) = (v, none, e)
  or_nil (v, some m, e) = (none, some m, e)

  unfoldable pub get_checkpoint : BaseConfig → cluster.E → Outcome (Returns cluster (Option Bytes))
  get_checkpoint key_info e =
      elim (get_last_block cluster (index Consts.checkpoint_topic key_info) (partition_of key_info)
        e) [ panic m ↦ panic m | done r ↦ done (or_nil r) ]

  -- WriteCheckpoint
  unfoldable pub write_checkpoint : BaseConfig → Bytes → cluster.E → Error × cluster.E
  write_checkpoint key_info value e = send_message (message_of key_info value) e

-- DeleteCheckpoint does nothing.
unfoldable pub delete_checkpoint : BaseConfig → Error
delete_checkpoint key_info = none
