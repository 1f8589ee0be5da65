-- ===== src/Base/KafkaClient.antt =====
-- base/kafka.go: questions to a Kafka cluster. sarama's client and brokers are parameters: `E` is
-- the state of the cluster as the calls see it. Sleeps between two attempts are left out.
pub mod Leader
pub mod Offsets
pub mod Topics
mod Tests
use descartes_legacy.Prelude.{
  ℕ, zero, suc, String, Bool, true, false, not, Option, none, some, List, [], ◌∷◌, ◌++◌,
  if◌then◌else◌, str_eq, length, ◌==◌,
}
use descartes_legacy.Prelude.Int.{ℤ, pos, negsuc, ltb_ℤ, eqb_ℤ, ◌-ℤ◌}
use descartes_legacy.Prelude.Map.{Map, lookup, has, insert}
use descartes_legacy.Prelude.Text.{contains}
use descartes_legacy.Prelude.Result.{Result, ok, err, Error, Outcome, done, panic}
use descartes_legacy.Base.Data.{Bytes}

abbrev pub max_retry : ℕ
max_retry = 10

abbrev pub topic_or_partition_not_exist : ℤ
topic_or_partition_not_exist = negsuc 9

pub record Block : Type 0 where
  pub offset : ℤ
  pub value : Bytes

pub record Cluster : Type 1 where
  pub E : Type 0
  pub Broker : Type 0
  pub offset_newest : ℤ
  pub offset_oldest : ℤ
  pub topics : E → Result (List String) × E
  pub partitions : String → E → Result (List ℤ) × E
  pub coordinator : String → E → Result Broker × E
  pub fetch_offset : Broker → String → String → ℤ → E → Result ℤ × E
  pub leader : String → ℤ → E → Result Broker × E
  -- The offsets that the broker has, the newest first.
  pub available_offsets : Broker → String → ℤ → E → Result (List ℤ) × E
  pub fetch : Broker → String → ℤ → ℤ → E → Result (List Block) × E

module _ (cluster : Cluster) where
  open cluster use {E, Broker}

  -- The value and the error that a Go function returns together.
  abbrev pub Returns : Type 0 → Type 0
  Returns A = A × Error × E

  -- The loop of Leader with the rounds left, and the values of `leader` and `err`.
  unfoldable pub leader_loop : ℕ → String → ℤ → Option Broker → Error → E → Returns (Option Broker)
  leader_loop zero topic partition leader e env = (leader, e, env)
  leader_loop (suc n) topic partition leader e env =
      let (r, env') = cluster.leader topic partition env in
      elim r [
        | ok broker ↦ (some broker, none, env')
        | err m ↦ elim (contains m "does not exist") [
          | true ↦ (none, none, env')
          | false ↦ leader_loop n topic partition none (some m) env'
        ]
      ]

  -- Leader: nil and no error for a topic that does not exist.
  unfoldable pub leader : String → ℤ → E → Returns (Option Broker)
  unfolding leader_loop
  leader topic partition env = leader_loop max_retry topic partition none none env

  -- `oresp.GetBlock(topic, partition).Offsets[0]`: indexing an empty list of offsets panics.
  abbrev pub newest_offset : Result (List ℤ) × E → Outcome (Returns ℤ)
  newest_offset (err m, env) = done (pos 0, some m, env)
  newest_offset (ok [], env) = panic "index out of range"
  newest_offset (ok (o ∷ _), env) = done (o, none, env)

  -- GetProducerOffset after Leader returned.
  abbrev pub offset_of_leader : String → ℤ → Returns (Option Broker) → Outcome (Returns ℤ)
  offset_of_leader topic partition (l, some m, env) =
      done (topic_or_partition_not_exist, some m, env)
  offset_of_leader topic partition (none, none, env) =
      done (topic_or_partition_not_exist, none, env)
  offset_of_leader topic partition (some broker, none, env) =
      newest_offset (cluster.available_offsets broker topic partition env)

  -- GetProducerOffset
  unfoldable pub get_producer_offset : String → ℤ → E → Outcome (Returns ℤ)
  get_producer_offset topic partition env =
      offset_of_leader topic partition (leader topic partition env)

  -- The search of GetLastBlock for the block with the offset.
  unfoldable pub find_block : ℤ → List Block → Option Bytes
  find_block o [] = none
  find_block o (b ∷ bs) = if eqb_ℤ b.offset o then some b.value else find_block o bs

  abbrev pub found_block : ℤ → Result (List Block) × E → Outcome (Returns (Option Bytes))
  found_block o (err m, env) = done (none, some m, env)
  found_block o (ok blocks, env) = done (find_block o blocks, none, env)

  -- The fetch of GetLastBlock after Leader returned; calling a nil leader panics.
  abbrev pub fetch_block :
      String → ℤ → ℤ → Returns (Option Broker) → Outcome (Returns (Option Bytes))
  fetch_block topic partition o (l, some m, env) = done (none, some m, env)
  fetch_block topic partition o (none, none, env) = panic "nil leader"
  fetch_block topic partition o (some broker, none, env) =
      found_block o (cluster.fetch broker topic partition o env)

  abbrev pub previous : ℤ → ℤ
  previous o = if ltb_ℤ (pos 0) o then o -ℤ pos 1 else o

  -- GetLastBlock after GetProducerOffset returned.
  abbrev pub last_block_at : String → ℤ → Outcome (Returns ℤ) → Outcome (Returns (Option Bytes))
  last_block_at topic partition (panic m) = panic m
  last_block_at topic partition (done (o, none, env)) =
      if eqb_ℤ o topic_or_partition_not_exist
      then done (none, none, env)
      else fetch_block topic partition (previous o) (leader topic partition env)
  last_block_at topic partition (done (o, some m, env)) =
      if eqb_ℤ o topic_or_partition_not_exist
      then done (none, none, env)
      else done (none, some m, env)

  -- GetLastBlock
  unfoldable pub get_last_block : String → ℤ → E → Outcome (Returns (Option Bytes))
  get_last_block topic partition env =
      last_block_at topic partition (get_producer_offset topic partition env)

  -- GetConsumerOffset: the newest offset stands for a group that does not exist, and is
  -- replaced by the oldest.
  unfoldable pub get_consumer_offset : String → String → ℤ → E → Returns ℤ
  get_consumer_offset group topic partition env =
      let (c, env') = cluster.coordinator group env in
      elim c [
        | err m ↦ (pos 0, some m, env')
        | ok broker ↦
            let (r, env'') = cluster.fetch_offset broker group topic partition env' in
            elim r [
              | err m ↦ (pos 0, some m, env'')
              | ok offset ↦ (
                if eqb_ℤ offset cluster.offset_newest then cluster.offset_oldest else offset,
                none,
                env'',
              )
            ]
      ]

  -- The append of the inner loop of TopicPartitions.
  unfoldable pub add_partitions : String → List ℤ → Map (List ℤ) → Map (List ℤ)
  add_partitions topic ps m = elim (lookup topic m) [
    | none ↦ insert topic ps m
    | some qs ↦ insert topic (qs ++ ps) m
  ]

  -- The loop of TopicPartitions over the topics: an empty name and a topic whose partitions
  -- cannot be read are passed over.
  unfoldable pub collect_partitions : List String → Map (List ℤ) → E → Map (List ℤ) × E
  collect_partitions [] m env = (m, env)
  collect_partitions (topic ∷ topics) m env =
      let skip = collect_partitions topics m env in
      let (r, env') = cluster.partitions topic env in
      let failed = collect_partitions topics m env' in
      let rest = λ (ps : List ℤ). collect_partitions topics (add_partitions topic ps m) env' in
      if str_eq topic "" then skip else elim r [ err _ ↦ failed | ok ps ↦ rest ps ]

  -- The end of TopicPartitions with its variable `err`, which the loop before does not set: that
  -- declares an `err` of its own.
  unfoldable pub listed : Error → Map (List ℤ) × E → Returns (Option (Map (List ℤ)))
  listed outer (m, env) = if length m == 0 then (none, outer, env) else (some m, none, env)

  -- TopicPartitions
  unfoldable pub topic_partitions : String → E → Returns (Option (Map (List ℤ)))
  topic_partitions topic env =
      if not (str_eq topic "")
      then listed none (collect_partitions ("" ∷ topic ∷ []) [] env)
      else let (r, env') = cluster.topics env in
        elim r [
          | err m ↦ (none, some m, env')
          | ok topics ↦ listed none (collect_partitions topics [] env')
        ]
