-- ===== src/Sources/Kafka/Resume.antt =====
-- getCheckpoint and NewKafkaDataReader of sources/kafka/kafka_data_reader.go: where a reader
-- starts to consume. The offsets that sarama reserves are parameters.
use descartes_legacy.Prelude.{
  ◌≡◌, refl, sym, ◌∙◌, String, Bool, false, not, ◌&&◌, Option, none, some, List, [], ◌++◌, str_eq,
  if◌then◌else◌,
}
use descartes_legacy.Prelude.Int.{ℤ, pos, ◌+ℤ◌, int32, int64}
use descartes_legacy.Prelude.Map.{has, index}
use descartes_legacy.Prelude.Decimal.{parse_int64}
use descartes_legacy.Prelude.Result.{ok, err, Error, done}
use descartes_legacy.Base.Consts
use descartes_legacy.Base.Data.{Bytes, BaseConfig, DataWriter, Checkpointer}
use descartes_legacy.Sources.Kafka.{
  Codec, CollectionState, Reader, Message, Event, index_data, initial_started,
}
use descartes_legacy.Sources.Kafka.Run.{index_data-Extends}
use descartes_legacy.Sources.Kafka.Progress.{Received, Resumes, last_message, received, payloads}

module _ (codec : Codec) (writer : DataWriter) (checkpoint : Checkpointer)
    (offset_oldest offset_newest : ℤ) where
  -- getCheckpoint after the partition was parsed.
  pub checkpoint_for : BaseConfig → ℤ → checkpoint.Store → Option CollectionState
  checkpoint_for config pid s =
      let state : CollectionState = record {
        version = "1";
        consumer_group = index Consts.kafka_consumer_group config;
        topic = index Consts.kafka_topic config;
        partition = int32 pid;
        offset = offset_oldest;
      } in
      if str_eq (index Consts.use_offset_oldest config) "1"
      then some state
      else if str_eq (index Consts.use_offset_newest config) "1"
      then some (record state { offset = offset_newest })
      else elim (checkpoint.get_checkpoint config s) [
        | err _ ↦ none
        | ok none ↦ some state
        | ok (some bytes) ↦ elim (codec.unmarshal_state state bytes) [
          | err _ ↦ none
          | ok c ↦ some c
        ]
      ]

  pub get_checkpoint : BaseConfig → checkpoint.Store → Option CollectionState
  get_checkpoint config s = elim (parse_int64 (index Consts.kafka_partition config)) [
    | err _ ↦ none
    | ok pid ↦ checkpoint_for config pid s
  ]

  -- NewKafkaDataReader. `consumer` is the error of sarama.NewConsumerFromClient, `consume` that of
  -- ConsumePartition for a topic, a partition and an offset.
  pub new_kafka_data_reader :
      Error
      → (String → ℤ → ℤ → Error)
      → BaseConfig
      → writer.Sink
      → checkpoint.Store
      → Option (Reader codec writer checkpoint)
  new_kafka_data_reader consumer consume config w s =
      if not (has Consts.kafka_topic config && has Consts.kafka_partition config)
      then none
      else elim consumer [
        | some _ ↦ none
        | none ↦ elim (get_checkpoint config s) [
          | none ↦ none
          | some state ↦ elim (parse_int64 (index Consts.kafka_partition config)) [
            | err _ ↦ none
            | ok pid ↦ elim (consume (index Consts.kafka_topic config) (int32 pid) state.offset) [
              | some _ ↦ none
              | none ↦ some (record {
                state = state;
                config = config;
                collecting = initial_started;
                start_indexing = 0;
                last_msg = none;
                batchs = [];
                sink = w;
                store = s;
              })
            ]
          ]
        ]
      ]

  -- Where a reader of the same configuration starts, after the last message that was delivered.
  abbrev pub resume_point : Reader codec writer checkpoint → Option Message → Option CollectionState
  resume_point r none = get_checkpoint r.config r.store
  resume_point r (some msg) = some (record r.state { offset = int64 (msg.offset +ℤ pos 1) })

  -- The configuration asks for the saved offset, of a partition that is a number.
  pub record UsesCheckpoint (config : BaseConfig) : Type 0 where
    pub not_oldest : str_eq (index Consts.use_offset_oldest config) "1" ≡ false
    pub not_newest : str_eq (index Consts.use_offset_newest config) "1" ≡ false
    pub pid : ℤ
    pub parsed : parse_int64 (index Consts.kafka_partition config) ≡ ok pid

  module _
      (decodes : (c d : CollectionState) (b : Bytes)
        → codec.marshal_state c ≡ ok b
        → codec.unmarshal_state d b ≡ ok c) where
    get_checkpoint_lem :
        (config : BaseConfig) (pid : ℤ) (s : checkpoint.Store)
        → parse_int64 (index Consts.kafka_partition config) ≡ ok pid
        → get_checkpoint config s ≡ checkpoint_for config pid s
    unfolding get_checkpoint
    get_checkpoint_lem config pid s h = rw (h, get_checkpoint)

    checkpoint_for_same :
        (config : BaseConfig) (pid : ℤ) (s s' : checkpoint.Store)
        → checkpoint.get_checkpoint config s' ≡ checkpoint.get_checkpoint config s
        → checkpoint_for config pid s' ≡ checkpoint_for config pid s
    unfolding checkpoint_for
    checkpoint_for_same config pid s s' h = rw (h, checkpoint_for)

    checkpoint_for_saved :
        (config : BaseConfig) (c : CollectionState) (b : Bytes) (s : checkpoint.Store)
        (u : UsesCheckpoint config)
        → codec.marshal_state c ≡ ok b
        → checkpoint.get_checkpoint config s ≡ ok (some b)
        → checkpoint_for config u.pid s ≡ some c
    unfolding checkpoint_for
    checkpoint_for_saved config c b s u m h =
        rw (u.not_oldest, checkpoint_for) (rw (u.not_newest) (rw h (rw (decodes c _ b m) refl)))

    get_checkpoint-Resumes :
        (r r' : Reader codec writer checkpoint) (m : Option Message)
        → UsesCheckpoint r.config
        → r'.state ≡ r.state
        → r'.config ≡ r.config
        → Resumes codec writer checkpoint r r' m
        → get_checkpoint r.config r'.store ≡ resume_point r m
    get_checkpoint-Resumes r r' none u s c h =
        get_checkpoint_lem r.config u.pid r'.store u.parsed
        ∙ checkpoint_for_same r.config u.pid r.store r'.store (rw c at h)
        ∙ sym (get_checkpoint_lem r.config u.pid r.store u.parsed)
    get_checkpoint-Resumes r r' (some msg) u s c h =
        get_checkpoint_lem r.config u.pid r'.store u.parsed
        ∙ checkpoint_for_saved r.config (record r.state { offset = int64 (msg.offset +ℤ pos 1) })
            h.bytes r'.store u (rw s at h.encoded) (rw c at h.stored)

    -- If the first IndexData returns, or waits for more events, of a reader whose configuration uses
    -- the saved offset, the messages that were received are in order those delivered and a rest, and a reader of the
    -- same configuration starts at the offset after the last delivered message, or where it would
    -- have started before if none was delivered.
    pub resume_after_run :
        (r r' : Reader codec writer checkpoint) (over : Bool) (es : List Event)
        → UsesCheckpoint r.config
        → r.start_indexing ≡ 0
        → index_data codec writer checkpoint r es ≡ done (over, r')
        → (f : List Received) × (p : List Received) × (f ++ p
            ≡ received codec.unmarshal_data r.collecting es)
          × (writer.delivered r'.sink ≡ writer.delivered r.sink ++ payloads f)
          × (get_checkpoint r.config r'.store ≡ resume_point r (last_message none f))
    resume_after_run r r' over es u first h =
        let (f, p, all, g) = index_data-Extends codec writer checkpoint r r' over es first h in
        (
          f,
          p,
          all,
          g.delivers,
          get_checkpoint-Resumes r r' (last_message none f) u g.same_state g.same_config g.resumes,
        )
