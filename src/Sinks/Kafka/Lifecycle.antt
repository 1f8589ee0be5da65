-- ===== src/Sinks/Kafka/Lifecycle.antt =====
-- The life of a writer of sinks/kafka/kafka_data_writer.go, over any calls of its methods.
use descartes_legacy.Prelude.{◌≡◌, ◌∙◌, refl, true, List, [], ◌∷◌, arith}
use descartes_legacy.Prelude.Result.{Result, Error}
use descartes_legacy.Base.Data.{Data, Bytes}
use descartes_legacy.Sinks.Kafka.{
  KafkaDataWriter, ProducerMessage, stopped, started, start, stop, write_data,
}

pub data Call : Type 0 where
  start_call : Call
  stop_call : Call
  write : Data → Call

-- The producers are closed exactly in the state stopped, and the errors are watched from Start on.
pub record IsConsistent (w : KafkaDataWriter) : Type 0 where
  pub known : w.state ≡ stopped → w.async_closed ≡ true
  pub both_closed : w.async_closed ≡ w.sync_closed
  pub closed : w.async_closed ≡ true → w.state ≡ stopped
  pub watched : w.state ≡ started → w.watching_errors ≡ true

module _ (marshal : Data → Result Bytes)
    (send_message : ProducerMessage → KafkaDataWriter → Error) where
  unfoldable pub call : Call → KafkaDataWriter → KafkaDataWriter
  call start_call w = start w
  call stop_call w = stop w
  call (write d) w = (write_data marshal send_message d w).1

  unfoldable pub calls : List Call → KafkaDataWriter → KafkaDataWriter
  unfolding call
  calls [] w = w
  calls (c ∷ cs) w = calls cs (call c w)

  call-IsConsistent : (c : Call) (w : KafkaDataWriter) → IsConsistent w → IsConsistent (call c w)
  unfolding call start stop write_data
  call-IsConsistent start_call w h = ground arith
  call-IsConsistent stop_call w h = ground arith
  call-IsConsistent (write d) w h = ground arith

  -- Whatever is called, the two producers are closed together, and exactly when the writer is stopped.
  pub calls-IsConsistent :
      (cs : List Call) (w : KafkaDataWriter) → IsConsistent w → IsConsistent (calls cs w)
  unfolding calls
  calls-IsConsistent [] w h = h
  calls-IsConsistent (c ∷ cs) w h = calls-IsConsistent cs (call c w) (call-IsConsistent c w h)

  call-stopped :
      (c : Call) (w : KafkaDataWriter)
      → w.state ≡ stopped
      → ((call c w).state ≡ stopped) × ((call c w).async_input ≡ w.async_input)
  unfolding call start stop write_data
  call-stopped start_call w h = ground arith
  call-stopped stop_call w h = ground arith
  call-stopped (write d) w h = ground arith

  -- A stopped writer stays stopped, and no call puts a message into the closed asynchronous producer.
  pub calls-stopped :
      (cs : List Call) (w : KafkaDataWriter)
      → w.state ≡ stopped
      → ((calls cs w).state ≡ stopped) × ((calls cs w).async_input ≡ w.async_input)
  unfolding calls
  calls-stopped [] w h = (h, refl)
  calls-stopped (c ∷ cs) w h =
      let (s, q) = call-stopped c w h in
      let (s', q') = calls-stopped cs (call c w) s in (s', q' ∙ q)
