-- ===== src/Sources/Kafka/Retry.antt =====
-- The retries of writeData and saveOffset in sources/kafka/kafka_data_reader.go, and the end of
-- IndexData after a Stop.
use descartes_legacy.Prelude.{
  ℕ, zero, suc, ◌<◌, ◌≡◌, refl, Option, none, some, List, [], ◌∷◌, ◌++◌, true, ◌⊎◌, inl, inr,
  Option-cases, Bool-cases, arith, length, ltb, leb,
}
use descartes_legacy.Prelude.Int.{pos, ◌+ℤ◌, int64}
use descartes_legacy.Prelude.Result.{ok, done, Result-cases}
use descartes_legacy.Base.Data.{Data, Bytes, BaseConfig, DataWriter, Checkpointer}
use descartes_legacy.Sources.Kafka.{
  Codec, Message, Event, consumer_error, message, messages_closed, tick, stop_call, CollectionState,
  Reader, write_data_loop, write_all, save_offset_loop, save_offset, flush, receive, on_tick, stop,
  step, index_loop, index_data, max_retry, batch_size, stopped, started,
}
use descartes_legacy.Sources.Kafka.Progress.{next_collecting}
use descartes_legacy.Sources.Kafka.Run.{step-collecting}

module _ (codec : Codec) (writer : DataWriter) (checkpoint : Checkpointer) where
  -- The sink after `k` attempts that all failed or not.
  abbrev sink_after : ℕ → Data → writer.Sink → writer.Sink
  sink_after zero d w = w
  sink_after (suc k) d w = sink_after k d (writer.write_data d w).1

  abbrev store_after : ℕ → BaseConfig → Bytes → checkpoint.Store → checkpoint.Store
  store_after zero c b s = s
  store_after (suc k) c b s = store_after k c b (checkpoint.write_checkpoint c b s).1

  -- One of the first `max_retry` attempts at any write succeeds, and every state has an encoding.
  pub record Recovers : Type 0 where
    pub sink_recovers :
        (d : Data) (w : writer.Sink)
        → (k : ℕ) × (k < max_retry) × ((writer.write_data d (sink_after k d w)).0 ≡ none)
    pub store_recovers :
        (c : BaseConfig) (b : Bytes) (s : checkpoint.Store)
        → (k : ℕ) × (k < max_retry)
          × ((checkpoint.write_checkpoint c b (store_after k c b s)).0 ≡ none)
    pub encodes : (c : CollectionState) → (b : Bytes) × (codec.marshal_state c ≡ ok b)

  write_data_loop-done :
      (k n : ℕ) (d : Data) (w : writer.Sink)
      → k < n
      → (writer.write_data d (sink_after k d w)).0 ≡ none
      → (w' : writer.Sink) × (write_data_loop codec writer checkpoint n d w ≡ done w')
  unfolding write_data_loop
  write_data_loop-done k zero d w lt h = elim lt [ ]
  write_data_loop-done zero (suc n) d w lt h = ((writer.write_data d w).1, rw (h, write_data_loop))
  write_data_loop-done (suc k) (suc n) d w lt h = elim (Option-cases (writer.write_data d w).0) [
    | inl e ↦ ((writer.write_data d w).1, rw (e, write_data_loop))
    | inr (m, e) ↦
        rw (e, write_data_loop)
          (write_data_loop-done k n d (writer.write_data d w).1 (omega arith) h)
  ]

  save_offset_loop-done :
      (k n : ℕ) (config : BaseConfig) (c : CollectionState) (b : Bytes) (s : checkpoint.Store)
      → codec.marshal_state c ≡ ok b
      → k < n
      → (checkpoint.write_checkpoint config b (store_after k config b s)).0 ≡ none
      → (s' : checkpoint.Store) × (save_offset_loop codec writer checkpoint n config c s ≡ done s')
  unfolding save_offset_loop
  save_offset_loop-done k zero config c b s m lt h = elim lt [ ]
  save_offset_loop-done zero (suc n) config c b s m lt h =
      ((checkpoint.write_checkpoint config b s).1, rw (m, h, save_offset_loop))
  save_offset_loop-done (suc k) (suc n) config c b s m lt h =
      elim (Option-cases (checkpoint.write_checkpoint config b s).0) [
        | inl e ↦ ((checkpoint.write_checkpoint config b s).1, rw (m, e, save_offset_loop))
        | inr (x, e) ↦
            rw (m, e, save_offset_loop)
              (save_offset_loop-done k n config c b (checkpoint.write_checkpoint config b s).1 m
                (omega arith) h)
      ]

  module _ (rec : Recovers) where
    write_all-done :
        (ds : List Data) (w : writer.Sink)
        → (w' : writer.Sink) × (write_all codec writer checkpoint ds w ≡ done w')
    unfolding write_all
    write_all-done [] w = (w, refl)
    write_all-done (d ∷ ds) w =
        let (k, lt, h) = rec.sink_recovers d w in
        let (w', e) = write_data_loop-done k max_retry d w lt h in rw e (write_all-done ds w')

    flush-done :
        (msg : Message) (r : Reader codec writer checkpoint)
        → (r' : Reader codec writer checkpoint) × (flush codec writer checkpoint msg r ≡ done r')
    unfolding flush
    flush-done msg r =
        let c = record r.state { offset = int64 (msg.offset +ℤ pos 1) } in
        let (w, e) = write_all-done r.batchs r.sink in
        let (b, m) = rec.encodes c in
        let (k, lt, h) = rec.store_recovers r.config b r.store in
        let (s, f) = save_offset_loop-done k max_retry r.config c b r.store m lt h in
        (record r { sink = w; store = s; batchs = [] }, rw (e, f, flush, save_offset))

    on_tick-done :
        (m : Option Message) (r : Reader codec writer checkpoint)
        → (r' : Reader codec writer checkpoint) × (on_tick codec writer checkpoint m r ≡ done r')
    unfolding on_tick
    on_tick-done none r = (r, refl)
    on_tick-done (some msg) r = elim (Bool-cases (ltb 0 (length r.batchs))) [
      | inl e ↦ rw e (flush-done msg r)
      | inr e ↦ (r, rw e)
    ]

    step-done :
        (r : Reader codec writer checkpoint) (e : Event)
        → (r' : Reader codec writer checkpoint) × (step codec writer checkpoint r e ≡ done r')
    unfolding step
    step-done r consumer_error = (r, refl)
    step-done r (message msg) = elim (Result-cases (codec.unmarshal_data msg.value)) [
      | inr (m, e) ↦ (r, rw (e, receive))
      | inl (d, e) ↦
          let r₁ = record r { last_msg = some msg; batchs = r.batchs ++ d ∷ [] } in
          elim (Bool-cases (leb batch_size (length r₁.batchs))) [
            | inl full ↦ rw (e, receive) (rw full (flush-done msg r₁))
            | inr room ↦ (r₁, rw (e, receive) (rw room))
          ]
    ]
    step-done r messages_closed = (r, refl)
    step-done r tick = on_tick-done r.last_msg r
    step-done r stop_call = (stop codec writer checkpoint r, refl)

    -- The loop is over, or it goes on until a Stop.
    Stoppable : Reader codec writer checkpoint → Type 0
    Stoppable r = (r.collecting ≡ started) ⊎ (r.collecting ≡ stopped)

    step-Stoppable :
        (r r' : Reader codec writer checkpoint) (e : Event)
        → r.collecting ≡ started
        → step codec writer checkpoint r e ≡ done r'
        → Stoppable r'
    unfolding Stoppable
    step-Stoppable r r' e c h =
        let k = step-collecting codec writer checkpoint r r' e h in kept e (rw c at k)
      where
        kept : (e : Event) → r'.collecting ≡ next_collecting started e → Stoppable r'
        kept consumer_error k = inl k
        kept (message m) k = inl k
        kept messages_closed k = inl k
        kept tick k = inl k
        kept stop_call k = inr k

    -- What a run that returned leaves.
    abbrev Returns : Reader codec writer checkpoint → List Event → Type 0
    Returns r es =
        (r' : Reader codec writer checkpoint) × (index_loop codec writer checkpoint r es
          ≡ done (true, r'))
        × (r'.collecting ≡ stopped)

    index_loop-over :
        (r : Reader codec writer checkpoint) (es : List Event)
        → r.collecting ≡ stopped
        → Returns r es
    unfolding index_loop
    index_loop-over r [] c = (r, rw c refl, c)
    index_loop-over r (e ∷ es) c = (r, rw c refl, c)

    index_loop-returns :
        (r : Reader codec writer checkpoint) (before after : List Event)
        → Stoppable r
        → Returns r (before ++ stop_call ∷ after)
    unfolding index_loop Stoppable step stop
    index_loop-returns r before after (inr c) = index_loop-over r (before ++ stop_call ∷ after) c
    index_loop-returns r [] after (inl c) =
        let (r', t, over) = index_loop-over (record r { collecting = stopped }) after refl in
        (r', rw (c, index_loop) t, over)
    index_loop-returns r (e ∷ before) after (inl c) =
        let (q, s) = step-done r e in
        let (r', t, over) = index_loop-returns q before after (step-Stoppable r q e c s) in
        (r', rw (c, s, index_loop) t, over)

    -- If every state has an encoding and among any 16 attempts at a write to the sink or to the
    -- store one succeeds, the first IndexData of a started reader returns once Stop is called,
    -- whatever events come before and after, and the reader is stopped then.
    pub index_data-returns :
        (r : Reader codec writer checkpoint) (before after : List Event)
        → r.start_indexing ≡ 0
        → r.collecting ≡ started
        → (r' : Reader codec writer checkpoint) × (index_data codec writer checkpoint r
              (before ++ stop_call ∷ after)
            ≡ done (true, r'))
          × (r'.collecting ≡ stopped)
    unfolding index_data Stoppable
    index_data-returns r before after first c =
        let (r', t, over) =
          index_loop-returns (record r { start_indexing = 1; last_msg = none; batchs = [] }) before
            after (inl c) in
        (r', rw first t, over)
