-- ===== src/Sources/Kafka.antt =====
-- sources/kafka/kafka_data_reader.go: the consumer loop, its batches and the saved offsets.
-- The JSON codec is a parameter; a delivery of the partition consumer is an event.
mod Flush
pub mod Resume
pub mod Retry
pub mod Progress
pub mod Run
mod Tests
use descartes_legacy.Prelude.{
  ℕ, zero, suc, String, Bool, true, false, Option, none, some, List, [], ◌∷◌, ◌++◌, ltb, leb, ◌==◌,
  not, ◌&&◌, if◌then◌else◌, length,
}
use descartes_legacy.Prelude.Int.{ℤ, pos, negsuc, ◌+ℤ◌, int64}
use descartes_legacy.Prelude.Result.{Result, ok, err, Error, Outcome, done, panic}
use descartes_legacy.Base.Data.{Data, Bytes, BaseConfig, DataWriter, Checkpointer}

pub record CollectionState : Type 0 where
  pub version : String
  pub consumer_group : String
  pub topic : String
  pub partition : ℤ
  pub offset : ℤ

-- The fields of sarama.ConsumerMessage that the reader uses.
pub record Message : Type 0 where
  pub topic : String
  pub partition : ℤ
  pub offset : ℤ
  pub value : Bytes

pub record Codec : Type 0 where
  pub unmarshal_data : Bytes → Result Data
  pub marshal_state : CollectionState → Result Bytes
  -- The fields that the text does not set keep their values of the first argument.
  pub unmarshal_state : CollectionState → Bytes → Result CollectionState

-- The values of `collecting`.
abbrev pub stopped : ℕ
stopped = 0

abbrev pub initial_started : ℕ
initial_started = 1

abbrev pub started : ℕ
started = 2

abbrev pub max_retry : ℕ
max_retry = 16

-- The variable `n` of IndexData.
abbrev pub batch_size : ℕ
batch_size = 16

-- What the `select` of IndexData receives, and a call of Stop by another goroutine.
pub data Event : Type 0 where
  consumer_error : Event
  message : Message → Event
  messages_closed : Event
  tick : Event
  stop_call : Event

module _ (codec : Codec) (writer : DataWriter) (checkpoint : Checkpointer) where
  -- The reader with the local variables of IndexData.
  pub record Reader : Type 0 where
    pub state : CollectionState
    pub config : BaseConfig
    pub collecting : ℕ
    pub start_indexing : ℕ
    pub last_msg : Option Message
    pub batchs : List Data
    pub sink : writer.Sink
    pub store : checkpoint.Store

  -- The loop of writeData with the attempts left.
  pub write_data_loop : ℕ → Data → writer.Sink → Outcome writer.Sink
  write_data_loop zero d w = panic "Failed to write data"
  write_data_loop (suc n) d w =
      let (e, w') = writer.write_data d w in
      let again = write_data_loop n d w' in elim e [ none ↦ done w' | some _ ↦ again ]

  -- The loop of saveOffset with the attempts left; an encoding that fails uses one up.
  pub save_offset_loop :
      ℕ → BaseConfig → CollectionState → checkpoint.Store → Outcome checkpoint.Store
  save_offset_loop zero config new_state s = panic "Failed to marshal/write checkpoint"
  save_offset_loop (suc n) config new_state s = elim (codec.marshal_state new_state) [
    | err _ ↦ save_offset_loop n config new_state s
    | ok bytes ↦
        let (e, s') = checkpoint.write_checkpoint config bytes s in
        let again = save_offset_loop n config new_state s' in
        elim e [ none ↦ done s' | some _ ↦ again ]
  ]

  pub write_all : List Data → writer.Sink → Outcome writer.Sink
  unfolding write_data_loop
  write_all [] w = done w
  write_all (d ∷ ds) w = elim (write_data_loop max_retry d w) [
    | done w' ↦ write_all ds w'
    | panic m ↦ panic m
  ]

  -- saveOffset
  pub save_offset : Reader → ℤ → Outcome Reader
  unfolding save_offset_loop
  save_offset r o =
      let new_state = record r.state { offset = o } in
      elim (save_offset_loop max_retry r.config new_state r.store) [
        | done s ↦ done (record r { store = s })
        | panic m ↦ panic m
      ]

  -- The function `f` of IndexData: write the batch, save the offset after `msg`, empty the batch.
  pub flush : Message → Reader → Outcome Reader
  unfolding write_all save_offset
  flush msg r = elim (write_all r.batchs r.sink) [
    | done w ↦ elim (save_offset (record r { sink = w }) (int64 (msg.offset +ℤ pos 1))) [
      | done r' ↦ done (record r' { batchs = [] })
      | panic m ↦ panic m
    ]
    | panic m ↦ panic m
  ]

  -- One delivered message: an undecodable one is skipped, a full batch is flushed.
  pub receive : Message → Reader → Outcome Reader
  receive msg r = elim (codec.unmarshal_data msg.value) [
    | err _ ↦ done r
    | ok d ↦
        let r' = record r { last_msg = some msg; batchs = r.batchs ++ d ∷ [] } in
        if leb batch_size (length r'.batchs) then flush msg r' else done r'
  ]

  -- The ticker flushes what is pending since the last message.
  pub on_tick : Option Message → Reader → Outcome Reader
  on_tick none r = done r
  on_tick (some msg) r = if ltb 0 (length r.batchs) then flush msg r else done r

  -- Stop, as far as the loop can see it.
  pub stop : Reader → Reader
  stop r = if r.collecting == started then record r { collecting = stopped } else r

  -- Start
  pub start : Reader → Reader
  start r = if r.collecting == initial_started then record r { collecting = started } else r

  -- One round of the `select`. A closed channel only leaves the `select`, so the loop goes on.
  pub step : Reader → Event → Outcome Reader
  unfolding receive on_tick stop
  step r consumer_error = done r
  step r (message msg) = receive msg r
  step r messages_closed = done r
  step r tick = on_tick r.last_msg r
  step r stop_call = done (stop r)

  -- The loop: its condition is read before each round. The flag says whether it returned; without,
  -- it waits for an event after the last one of the list.
  pub index_loop : Reader → List Event → Outcome (Bool × Reader)
  index_loop r [] = done (r.collecting == stopped, r)
  index_loop r (e ∷ es) =
      if r.collecting == stopped
      then done (true, r)
      else elim (step r e) [ done r' ↦ index_loop r' es | panic m ↦ panic m ]

  -- IndexData: only the first call runs the loop.
  pub index_data : Reader → List Event → Outcome (Bool × Reader)
  unfolding index_loop
  index_data r es =
      if r.start_indexing == 0
      then index_loop (record r { start_indexing = 1; last_msg = none; batchs = [] }) es
      else done (true, r)
