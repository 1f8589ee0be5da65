-- ===== src/Sources/Kafka/Progress.antt =====
-- What IndexData in sources/kafka/kafka_data_reader.go has done after any events: which messages
-- are delivered, which are pending, and which offset a later reader starts from.
use descartes_legacy.Prelude.{
  ℕ, suc, ◌<◌, ◌≡◌, refl, sym, ◌∙◌, ap, Option, none, some, List, [], ◌∷◌, ◌++◌, append-nil,
  append_assoc, inl, inr, Bool-cases, arith, subst, length, length-append, if◌then◌else◌, ◌==◌, ltb,
  leb,
}
use descartes_legacy.Prelude.Int.{pos, ◌+ℤ◌, int64}
use descartes_legacy.Prelude.Result.{Result, ok, err, done, Result-cases}
use descartes_legacy.Base.Data.{Data, Bytes, DataWriter, Checkpointer}
use descartes_legacy.Sources.Kafka.{
  Codec, Message, Event, message, stop_call, Reader, flush, receive, on_tick, stopped, started,
  batch_size,
}
use descartes_legacy.Sources.Kafka.Flush.{Saved, flush-Flushed}

-- A message with what its value decodes to.
abbrev pub Received : Type 0
Received = Message × Data

abbrev pub payloads : List Received → List Data
payloads [] = []
payloads (x ∷ xs) = x.1 ∷ payloads xs

abbrev pub last_message : Option Message → List Received → Option Message
last_message m [] = m
last_message m (x ∷ xs) = last_message (some x.0) xs

pub payloads-append : (xs ys : List Received) → payloads (xs ++ ys) ≡ payloads xs ++ payloads ys
payloads-append [] ys = refl
payloads-append (x ∷ xs) ys = ap (λ l. x.1 ∷ l) (payloads-append xs ys)

pub last_message-snoc :
    (m : Option Message) (xs : List Received) (x : Received)
    → last_message m (xs ++ x ∷ []) ≡ some x.0
last_message-snoc m [] x = refl
last_message-snoc m (y ∷ xs) x = last_message-snoc (some y.0) xs x

-- A decodable message counts as received.
abbrev pub decoded : Message → Result Data → List Received
decoded msg (ok d) = (msg, d) ∷ []
decoded msg (err _) = []

-- How Stop changes `collecting`.
abbrev pub after_stop : ℕ → ℕ
after_stop c = if c == started then stopped else c

abbrev pub next_collecting : ℕ → Event → ℕ
next_collecting c stop_call = after_stop c
next_collecting c _ = c

abbrev pub received_at : (Bytes → Result Data) → Event → List Received
received_at dec (message msg) = decoded msg (dec msg.value)
received_at dec _ = []

-- The decodable messages among the events up to the first effective stop, in order.
abbrev pub received : (Bytes → Result Data) → ℕ → List Event → List Received
received dec c [] = []
received dec c (e ∷ es) =
    let rest = received dec (next_collecting c e) es in
    if c == stopped then [] else received_at dec e ++ rest

module _ (codec : Codec) (writer : DataWriter) (checkpoint : Checkpointer) where
  -- With nothing flushed a later reader finds what it found before; otherwise it finds the offset
  -- after the last flushed message.
  abbrev pub Resumes :
      Reader codec writer checkpoint → Reader codec writer checkpoint → Option Message → Type 0
  Resumes r₀ r none =
      checkpoint.get_checkpoint r.config r.store ≡ checkpoint.get_checkpoint r₀.config r₀.store
  Resumes r₀ r (some msg) = Saved codec writer checkpoint r (int64 (msg.offset +ℤ pos 1))

  -- Since `r₀` the messages `flushed` were delivered, and `pending` wait in the batch.
  pub record Progress (r₀ r : Reader codec writer checkpoint) (flushed pending : List Received)
      : Type 0 where
    pub delivers : writer.delivered r.sink ≡ writer.delivered r₀.sink ++ payloads flushed
    pub holds : r.batchs ≡ payloads pending
    pub small : length pending < batch_size
    pub last : r.last_msg ≡ last_message none (flushed ++ pending)
    pub resumes : Resumes r₀ r (last_message none flushed)
    pub same_state : r.state ≡ r₀.state
    pub same_config : r.config ≡ r₀.config

  abbrev pub Extends :
      Reader codec writer checkpoint → Reader codec writer checkpoint → List Received → Type 0
  Extends r₀ r all =
      (flushed : List Received) × (pending : List Received) × (flushed ++ pending ≡ all)
      × Progress r₀ r flushed pending

  -- A flush after the last received message moves all that is pending to what was flushed.
  pub flush-Extends :
      (r₀ r r' : Reader codec writer checkpoint) (msg : Message) (f p : List Received)
      → writer.delivered r.sink ≡ writer.delivered r₀.sink ++ payloads f
      → r.batchs ≡ payloads p
      → r.last_msg ≡ some msg
      → last_message none (f ++ p) ≡ some msg
      → r.state ≡ r₀.state
      → r.config ≡ r₀.config
      → flush codec writer checkpoint msg r ≡ done r'
      → Extends r₀ r' (f ++ p)
  flush-Extends r₀ r r' msg f p d b m l s c h =
      let x = flush-Flushed codec writer checkpoint msg r r' h in
      (
        f ++ p,
        [],
        append-nil (f ++ p),
        record {
          delivers = cc (
            x.delivers,
            payloads-append f p,
            append_assoc (writer.delivered r₀.sink) (payloads f) (payloads p),
          );
          holds = x.empties;
          small = omega arith;
          last = cc (x.same_last_msg, append-nil (f ++ p));
          resumes = rw l x.saves;
          same_state = x.same_state ∙ s;
          same_config = x.same_config ∙ c;
        },
      )

  pub length-payloads : (xs : List Received) → length (payloads xs) ≡ length xs
  length-payloads [] = refl
  length-payloads (x ∷ xs) = ap suc (length-payloads xs)

  -- What a later reader finds depends on the state, the configuration and the store alone.
  pub Resumes-same :
      (r₀ r : Reader codec writer checkpoint) (l : Option Message) (b : List Data) (c : ℕ)
      (m : Option Message)
      → Resumes r₀ r m
      → Resumes r₀ (record r { collecting = c; last_msg = l; batchs = b }) m
  Resumes-same r₀ r l b c none h = h
  Resumes-same r₀ r l b c (some msg) h = record {
    bytes = h.bytes;
    encoded = h.encoded;
    stored = h.stored;
  }

  pub Resumes-from :
      (r₀ r₁ r : Reader codec writer checkpoint) (m : Option Message)
      → r₁.store ≡ r₀.store
      → r₁.config ≡ r₀.config
      → Resumes r₁ r m
      → Resumes r₀ r m
  Resumes-from r₀ r₁ r none s c h = rw (← s, ← c) h
  Resumes-from r₀ r₁ r (some msg) s c h = h

  pub receive-Extends :
      (r₀ r r' : Reader codec writer checkpoint) (msg : Message) (f p : List Received)
      → Progress r₀ r f p
      → receive codec writer checkpoint msg r ≡ done r'
      → Extends r₀ r' ((f ++ p) ++ decoded msg (codec.unmarshal_data msg.value))
  unfolding receive
  receive-Extends r₀ r r' msg f p g h = elim (Result-cases (codec.unmarshal_data msg.value)) [
    | inr (m, e) ↦
        let k : r ≡ r' = ground (arith, e, h) in
        rw (e, append-nil (f ++ p)) (f, p, refl, subst (λ x. Progress r₀ x f p) k g)
    | inl (d, e) ↦
        rw (e, append_assoc f p ((msg, d) ∷ []))
          (elim (Bool-cases (leb batch_size (length (r.batchs ++ d ∷ [])))) [
            | inl full ↦
                flush-Extends r₀ (record r { last_msg = some msg; batchs = r.batchs ++ d ∷ [] }) r'
                  msg f (p ++ (msg, d) ∷ []) g.delivers
                  (cc (g.holds, payloads-append p ((msg, d) ∷ []))) refl
                  (rw (← append_assoc f p ((msg, d) ∷ []))
                    (last_message-snoc none (f ++ p) (msg, d)))
                  g.same_state g.same_config (ground (arith, e, full, h))
            | inr room ↦
                let k : record r { last_msg = some msg; batchs = r.batchs ++ d ∷ [] } ≡ r' =
                  ground (arith, e, room, h) in
                (
                  f,
                  p ++ (msg, d) ∷ [],
                  refl,
                  subst (λ x. Progress r₀ x f (p ++ (msg, d) ∷ [])) k
                      (record {
                        delivers = g.delivers;
                        holds = cc (g.holds, payloads-append p ((msg, d) ∷ []));
                        small = ground (
                          arith,
                          room,
                          length-append r.batchs (d ∷ []),
                          length-append p ((msg, d) ∷ []),
                          ap length g.holds,
                          length-payloads p,
                        );
                        last = sym (
                            rw (← append_assoc f p ((msg, d) ∷ []))
                              (last_message-snoc none (f ++ p) (msg, d)));
                        resumes =
                            Resumes-same r₀ r (some msg) (r.batchs ++ d ∷ []) r.collecting
                              (last_message none f) g.resumes;
                        same_state = g.same_state;
                        same_config = g.same_config;
                      }),
                )
          ])
  ]

  pub on_tick-Extends :
      (r₀ r r' : Reader codec writer checkpoint) (m : Option Message) (f p : List Received)
      → Progress r₀ r f p
      → r.last_msg ≡ m
      → on_tick codec writer checkpoint m r ≡ done r'
      → Extends r₀ r' (f ++ p)
  unfolding on_tick
  on_tick-Extends r₀ r r' none f p g l h =
      (f, p, refl, subst (λ x. Progress r₀ x f p) (ground (arith, h)) g)
  on_tick-Extends r₀ r r' (some msg) f p g l h = elim (Bool-cases (ltb 0 (length r.batchs))) [
    | inl some_pending ↦
        flush-Extends r₀ r r' msg f p g.delivers g.holds l (cc (g.last, l)) g.same_state
          g.same_config (ground (arith, some_pending, h))
    | inr e ↦ (f, p, refl, subst (λ x. Progress r₀ x f p) (ground (arith, e, h)) g)
  ]
