-- ===== src/Sources/Kafka/Tests.antt =====
-- A reader whose two messages are decoded: the first is flushed by the ticker, the second is
-- pending at the stop. The saved state is written as its offset, which is the only field that
-- differs between the states of this reader.
use descartes_legacy.Prelude.{
  ℕ, ◌≡◌, refl, sym, ap, ◌∙◌, String, Bool, true, false, ◌&&◌, none, some, List, [], ◌∷◌, ◌++◌,
  arith, str_eq, str_eq→eq, if◌then◌else◌, inl, inr, Bool-cases, ltb,
}
use descartes_legacy.Prelude.Int.{ℤ, pos, negsuc, ◌+ℤ◌, int64, eqb_ℤ, half_64}
use descartes_legacy.Prelude.Map.{lookup, insert, index}
use descartes_legacy.Prelude.Decimal.{parse_int64, format_int}
use descartes_legacy.Prelude.Decimal.RoundTrip.{parse_int64-format_int}
use descartes_legacy.Prelude.Result.{Result, ok, err, done}
use descartes_legacy.Base.Consts
use descartes_legacy.Base.Data.{Bytes, BaseConfig}
use descartes_legacy.Sinks.Memory.{memory_writer, new_memory_data_writer, do_write_data}
use descartes_legacy.Sources.MemoryStore.{memory_checkpointer}
use descartes_legacy.Sources.Kafka.{
  Codec, CollectionState, Reader, Message, Event, started, index_data, index_loop, step, receive,
  on_tick, flush, write_all, write_data_loop, save_offset, save_offset_loop, stop,
}
use descartes_legacy.Sources.Kafka.Run.{index_data-Extends}
use descartes_legacy.Sources.Kafka.Progress.{Received, Extends, received, payloads, last_message}
use descartes_legacy.Sources.Kafka.Retry.{Recovers, index_data-returns}
use descartes_legacy.Sources.Kafka.Resume.{
  UsesCheckpoint, resume_after_run, resume_point, get_checkpoint,
}

abbrev state_at : ℤ → CollectionState
state_at o = record {
  version = "1";
  consumer_group = "g";
  topic = "t";
  partition = pos 0;
  offset = o;
}

abbrev is_ours : CollectionState → Bool
is_ours c =
    str_eq c.version "1"
    && str_eq c.consumer_group "g"
    && str_eq c.topic "t"
    && eqb_ℤ c.partition (pos 0)

abbrev write_offset : ℤ → Result Bytes
write_offset (pos n) = if ltb n half_64 then ok (format_int (pos n)) else err "offset"
write_offset (negsuc n) = err "offset"

abbrev read_offset : Result ℤ → Result CollectionState
read_offset (ok o) = ok (state_at o)
read_offset (err e) = err e

abbrev codec : Codec
codec = record {
  unmarshal_data = λ v. ok (record { meta_info = []; raw_data = v ∷ [] });
  marshal_state = λ c. if is_ours c then write_offset c.offset else err "state";
  unmarshal_state = λ d b. read_offset (parse_int64 b);
}

ours_lem : (c : CollectionState) → is_ours c ≡ true → c ≡ state_at c.offset
ours_lem c h =
    let v : c.version ≡ "1" = str_eq→eq c.version "1" (ground arith) in
    let g : c.consumer_group ≡ "g" = str_eq→eq c.consumer_group "g" (ground arith) in
    let t : c.topic ≡ "t" = str_eq→eq c.topic "t" (ground arith) in
    let p : c.partition ≡ pos 0 = ground arith in cc (v, g, t, p)

read_ok :
    (n : ℕ) (b : Bytes)
    → ltb n half_64 ≡ true
    → write_offset (pos n) ≡ ok b
    → format_int (pos n) ≡ b
read_ok n b e h =
    let k : (if true then ok (format_int (pos n)) else err "offset") ≡ ok b =
      ap (λ t. if t then ok (format_int (pos n)) else err "offset") (sym e) ∙ h in
    cc k

out_of_range : (n : ℕ) (b : Bytes) → ltb n half_64 ≡ false → write_offset (pos n) ≡ ok b → ⊥
out_of_range n b e h =
    let k : (if false then ok (format_int (pos n)) else err "offset") ≡ ok b =
      ap (λ t. if t then ok (format_int (pos n)) else err "offset") (sym e) ∙ h in
    cc k

read_write :
    (o : ℤ) (b : Bytes) → write_offset o ≡ ok b → read_offset (parse_int64 b) ≡ ok (state_at o)
read_write (pos n) b h = elim (Bool-cases (ltb n half_64)) [
  | inl e ↦
      let b_eq : format_int (pos n) ≡ b = read_ok n b e h in
      rw (← b_eq) (rw (parse_int64-format_int (pos n) (ground arith, omega arith)) refl)
  | inr e ↦ absurd (out_of_range n b e h)
]
read_write (negsuc n) b h = cc h

decodes :
    (c d : CollectionState) (b : Bytes)
    → codec.marshal_state c ≡ ok b
    → codec.unmarshal_state d b ≡ ok c
decodes c d b h = elim (Bool-cases (is_ours c)) [
  | inl e ↦
      let k : write_offset c.offset ≡ ok b =
        ap (λ t. if t then write_offset c.offset else err "state") (sym e) ∙ h in
      read_write c.offset b k ∙ ap ok (sym (ours_lem c e))
  | inr e ↦
      let k : (if false then write_offset c.offset else err "state") ≡ ok b =
        ap (λ t. if t then write_offset c.offset else err "state") (sym e) ∙ h in
      cc k
]

abbrev config : BaseConfig
config =
    (Consts.kafka_partition, "0")
    ∷ (Consts.kafka_topic, "t")
    ∷ (Consts.kafka_consumer_group, "g")
    ∷ (Consts.checkpoint_key, "t_0")
    ∷ []

abbrev fresh : Reader codec memory_writer memory_checkpointer
fresh = record {
  state = state_at (negsuc 1);
  config = config;
  collecting = started;
  start_indexing = 0;
  last_msg = none;
  batchs = [];
  sink = new_memory_data_writer;
  store = [];
}

abbrev at_offset : ℕ → String → Message
at_offset n v = record { topic = "t"; partition = pos 0; offset = pos n; value = v }

abbrev events : List Event
events =
    Event.message (at_offset 5 "a")
    ∷ Event.tick
    ∷ Event.message (at_offset 6 "b")
    ∷ Event.stop_call
    ∷ Event.message (at_offset 7 "c")
    ∷ []

abbrev total : Codec
total = record codec { marshal_state = λ c. ok "state" }

-- The reader after the events.
abbrev stopped_reader : Reader codec memory_writer memory_checkpointer
stopped_reader = record fresh {
  collecting = 0;
  start_indexing = 1;
  last_msg = some (at_offset 6 "b");
  batchs = record { meta_info = []; raw_data = "b" ∷ [] } ∷ [];
  sink = record { taken = []; data_chan = record { meta_info = []; raw_data = "a" ∷ [] } ∷ [] };
  store = ("t_0", "6") ∷ [];
}

runs : index_data codec memory_writer memory_checkpointer fresh events ≡ done (true, stopped_reader)
unfolding index_data index_loop step receive on_tick flush write_all write_data_loop save_offset
    save_offset_loop stop do_write_data format_int index lookup insert int64 ◌+ℤ◌
    new_memory_data_writer
runs = refl

index_data-Extends_example :
    Extends codec memory_writer memory_checkpointer fresh stopped_reader
      (received codec.unmarshal_data started events)
index_data-Extends_example =
    index_data-Extends codec memory_writer memory_checkpointer fresh stopped_reader true events refl
      runs

total-Recovers : Recovers total memory_writer memory_checkpointer
unfolding do_write_data
total-Recovers = record {
  sink_recovers = λ d w. (0, omega arith, refl);
  store_recovers = λ c b s. (0, omega arith, refl);
  encodes = λ c. ("state", refl);
}

abbrev other : Reader total memory_writer memory_checkpointer
other = record {
  state = state_at (negsuc 1);
  config = config;
  collecting = started;
  start_indexing = 0;
  last_msg = none;
  batchs = [];
  sink = new_memory_data_writer;
  store = [];
}

index_data-returns_example :
    (r' : Reader total memory_writer memory_checkpointer) × (index_data total memory_writer
        memory_checkpointer other events
      ≡ done (true, r'))
    × (r'.collecting ≡ 0)
index_data-returns_example =
    index_data-returns total memory_writer memory_checkpointer total-Recovers other
      (Event.message (at_offset 5 "a") ∷ Event.tick ∷ Event.message (at_offset 6 "b") ∷ [])
      (Event.message (at_offset 7 "c") ∷ []) refl refl

config-UsesCheckpoint :
    UsesCheckpoint codec memory_writer memory_checkpointer (negsuc 1) (negsuc 0) config
unfolding index lookup parse_int64
config-UsesCheckpoint = record { not_oldest = refl; not_newest = refl; pid = pos 0; parsed = refl }

resume_after_run_example :
    (f : List Received) × (p : List Received) × (f ++ p
      ≡ received codec.unmarshal_data started events)
    × (memory_writer.delivered stopped_reader.sink
        ≡ memory_writer.delivered fresh.sink ++ payloads f)
    × (get_checkpoint codec memory_writer memory_checkpointer
          (negsuc 1)
          (negsuc 0)
          config
          stopped_reader.store
        ≡ resume_point codec memory_writer memory_checkpointer
            (negsuc 1)
            (negsuc 0)
            fresh
            (last_message none f))
resume_after_run_example =
    resume_after_run codec memory_writer memory_checkpointer (negsuc 1) (negsuc 0) decodes fresh
      stopped_reader true events config-UsesCheckpoint refl runs
