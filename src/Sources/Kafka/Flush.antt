-- ===== src/Sources/Kafka/Flush.antt =====
-- writeData, saveOffset and the function `f` of IndexData in sources/kafka/kafka_data_reader.go.
use descartes_legacy.Prelude.{
  ℕ, zero, suc, ◌≡◌, refl, some, List, [], ◌∷◌, ◌++◌, append-nil, append_assoc, inl, inr,
  Option-cases, arith, subst,
}
use descartes_legacy.Prelude.Int.{ℤ, pos, ◌+ℤ◌, int64}
use descartes_legacy.Prelude.Result.{ok, done, Outcome-cases, Result-cases}
use descartes_legacy.Base.Data.{Data, Bytes, BaseConfig, DataWriter, Checkpointer}
use descartes_legacy.Sources.Kafka.{
  Codec, Message, CollectionState, Reader, write_data_loop, write_all, save_offset_loop, flush,
  max_retry,
}

module _ (codec : Codec) (writer : DataWriter) (checkpoint : Checkpointer) where
  write_data_loop_delivers :
      (n : ℕ) (d : Data) (w w' : writer.Sink)
      → write_data_loop codec writer checkpoint n d w ≡ done w'
      → writer.delivered w' ≡ writer.delivered w ++ d ∷ []
  unfolding write_data_loop
  write_data_loop_delivers zero d w w' h = cc
  write_data_loop_delivers (suc n) d w w' h = elim (Option-cases (writer.write_data d w).0) [
    | inl e ↦ ground (arith, e, writer.write_nil d w e, h)
    | inr (m, e) ↦ ground (
      arith,
      e,
      writer.write_error d w e,
      write_data_loop_delivers n d (writer.write_data d w).1 w',
    )
  ]

  -- A batch that is written in full is delivered in order, after what was delivered before.
  pub write_all_delivers :
      (ds : List Data) (w w' : writer.Sink)
      → write_all codec writer checkpoint ds w ≡ done w'
      → writer.delivered w' ≡ writer.delivered w ++ ds
  unfolding write_all
  write_all_delivers [] w w' h = ground (arith, append-nil (writer.delivered w))
  write_all_delivers (d ∷ ds) w w' h =
      elim (Outcome-cases (write_data_loop codec writer checkpoint max_retry d w)) [
        | inl (v, e) ↦ cc (
          write_all_delivers ds v w' (rw e at h),
          write_data_loop_delivers max_retry d w v e,
          append_assoc (writer.delivered w) (d ∷ []) ds,
        )
        | inr (m, e) ↦ ground (arith, e, h)
      ]

  -- A saved offset is what the next reader gets: the state with that offset, as it was encoded.
  pub record Saved (r : Reader codec writer checkpoint) (o : ℤ) : Type 0 where
    pub bytes : Bytes
    pub encoded : codec.marshal_state (record r.state { offset = o }) ≡ ok bytes
    pub stored : checkpoint.get_checkpoint r.config r.store ≡ ok (some bytes)

  save_offset_loop_stores :
      (n : ℕ) (config : BaseConfig) (c : CollectionState) (s s' : checkpoint.Store)
      → save_offset_loop codec writer checkpoint n config c s ≡ done s'
      → (bytes : Bytes) × (codec.marshal_state c ≡ ok bytes)
        × (checkpoint.get_checkpoint config s' ≡ ok (some bytes))
  unfolding save_offset_loop
  save_offset_loop_stores zero config c s s' h = cc
  save_offset_loop_stores (suc n) config c s s' h = elim (Result-cases (codec.marshal_state c)) [
    | inr (m, e) ↦ save_offset_loop_stores n config c s s' (rw (e, save_offset_loop) at h)
    | inl (b, e) ↦ elim (Option-cases (checkpoint.write_checkpoint config b s).0) [
      | inl f ↦ (b, e, ground (arith, e, f, h, checkpoint.read_back config b s f))
      | inr (m, f) ↦
          save_offset_loop_stores n config c (checkpoint.write_checkpoint config b s).1 s'
            (rw (e, f, save_offset_loop) at h)
    ]
  ]

  -- What a flush that returns has done: the batch is delivered and emptied, the offset after the
  -- message is saved, and nothing else of the reader changed.
  pub record Flushed (msg : Message) (r r' : Reader codec writer checkpoint) : Type 0 where
    pub delivers : writer.delivered r'.sink ≡ writer.delivered r.sink ++ r.batchs
    pub empties : r'.batchs ≡ []
    pub saves : Saved r' (int64 (msg.offset +ℤ pos 1))
    pub same_state : r'.state ≡ r.state
    pub same_config : r'.config ≡ r.config
    pub same_last_msg : r'.last_msg ≡ r.last_msg
    pub same_collecting : r'.collecting ≡ r.collecting

  pub flush-Flushed :
      (msg : Message) (r r' : Reader codec writer checkpoint)
      → flush codec writer checkpoint msg r ≡ done r'
      → Flushed msg r r'
  unfolding flush
  flush-Flushed msg r r' h =
      elim (Outcome-cases (write_all codec writer checkpoint r.batchs r.sink)) [
        | inr (m, e) ↦ ground (arith, e, h)
        | inl (w, e) ↦
            elim (Outcome-cases (
              save_offset_loop codec writer checkpoint max_retry r.config
                (record r.state { offset = int64 (msg.offset +ℤ pos 1) }) r.store)) [
                  | inr (m, f) ↦ ground (arith, e, f, h)
                  | inl (s, f) ↦
                      let k : record r { sink = w; store = s; batchs = [] } ≡ r' =
                        ground (arith, e, f, h) in
                      subst (Flushed msg r) k (record {
                        delivers = write_all_delivers r.batchs r.sink w e;
                        empties = refl;
                        saves =
                            let (b, p, q) =
                              save_offset_loop_stores max_retry r.config
                                (record r.state { offset = int64 (msg.offset +ℤ pos 1) }) r.store s
                                f in
                            record { bytes = b; encoded = p; stored = q };
                        same_state = refl;
                        same_config = refl;
                        same_last_msg = refl;
                        same_collecting = refl;
                      })
                ]
      ]
