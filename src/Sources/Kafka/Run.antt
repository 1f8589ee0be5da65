-- ===== src/Sources/Kafka/Run.antt =====
-- What a whole run of IndexData in sources/kafka/kafka_data_reader.go has done.
use descartes_legacy.Prelude.{
  String, ◌≡◌, refl, sym, ap, Option, none, some, List, [], ◌∷◌, ◌++◌, append-nil, append_assoc,
  Bool, true, inl, inr, Bool-cases, arith, subst, length, ◌==◌, ltb, leb,
}
use descartes_legacy.Prelude.Result.{done, panic, Outcome, Outcome-cases, Result-cases}
use descartes_legacy.Base.Data.{DataWriter, Checkpointer}
use descartes_legacy.Sources.Kafka.{
  Codec, Message, Event, consumer_error, message, messages_closed, tick, stop_call, Reader, receive,
  on_tick, stop, step, index_loop, index_data, stopped, batch_size,
}
use descartes_legacy.Sources.Kafka.Flush.{flush-Flushed}
use descartes_legacy.Sources.Kafka.Progress.{
  Received, last_message, after_stop, next_collecting, received_at, received, Progress, Extends,
  Resumes-same, Resumes-from, receive-Extends, on_tick-Extends,
}

module _ (codec : Codec) (writer : DataWriter) (checkpoint : Checkpointer) where
  stop-Progress :
      (r₀ r : Reader codec writer checkpoint) (f p : List Received)
      → Progress codec writer checkpoint r₀ r f p
      → Progress codec writer checkpoint r₀ (record r { collecting = after_stop r.collecting }) f p
  stop-Progress r₀ r f p g = record {
    delivers = g.delivers;
    holds = g.holds;
    small = g.small;
    last = g.last;
    resumes =
        Resumes-same codec writer checkpoint r₀ r r.last_msg r.batchs (after_stop r.collecting)
          (last_message none f) g.resumes;
    same_state = g.same_state;
    same_config = g.same_config;
  }

  stop_lem :
      (r : Reader codec writer checkpoint)
      → stop codec writer checkpoint r ≡ record r { collecting = after_stop r.collecting }
  unfolding stop
  stop_lem r = ground arith

  collecting-receive :
      (r r' : Reader codec writer checkpoint) (msg : Message)
      → receive codec writer checkpoint msg r ≡ done r'
      → r'.collecting ≡ r.collecting
  unfolding receive
  collecting-receive r r' msg h = elim (Result-cases (codec.unmarshal_data msg.value)) [
    | inr (m, e) ↦ ground (arith, e, h)
    | inl (d, e) ↦ elim (Bool-cases (leb batch_size (length (r.batchs ++ d ∷ [])))) [
      | inl full ↦
          (flush-Flushed codec writer checkpoint msg
            (record r { last_msg = some msg; batchs = r.batchs ++ d ∷ [] }) r'
            (ground (arith, e, full, h))).same_collecting
      | inr room ↦ ground (arith, e, room, h)
    ]
  ]

  collecting-on_tick :
      (r r' : Reader codec writer checkpoint) (m : Option Message)
      → on_tick codec writer checkpoint m r ≡ done r'
      → r'.collecting ≡ r.collecting
  unfolding on_tick
  collecting-on_tick r r' none h = ground (arith, h)
  collecting-on_tick r r' (some msg) h = elim (Bool-cases (ltb 0 (length r.batchs))) [
    | inl e ↦
        (flush-Flushed codec writer checkpoint msg r r' (ground (arith, e, h))).same_collecting
    | inr e ↦ ground (arith, e, h)
  ]

  done-injective : (r r' : Reader codec writer checkpoint) → done r ≡ done r' → r ≡ r'
  done-injective r r' h = cc

  pub step-collecting :
      (r r' : Reader codec writer checkpoint) (e : Event)
      → step codec writer checkpoint r e ≡ done r'
      → r'.collecting ≡ next_collecting r.collecting e
  unfolding step
  step-collecting r r' consumer_error h = sym (ap (λ x. x.collecting) (done-injective r r' h))
  step-collecting r r' (message msg) h = collecting-receive r r' msg h
  step-collecting r r' messages_closed h = sym (ap (λ x. x.collecting) (done-injective r r' h))
  step-collecting r r' tick h = collecting-on_tick r r' r.last_msg h
  step-collecting r r' stop_call h =
      let k : record r { collecting = after_stop r.collecting } ≡ r' = cc (stop_lem r, h) in
      sym (ap (λ x. x.collecting) k)

  same_reader :
      (b b' : Bool) (r r' : Reader codec writer checkpoint)
      → ◌≡◌ {A = Outcome (Bool × Reader codec writer checkpoint)} (done (b, r)) (done (b', r'))
      → r ≡ r'
  same_reader b b' r r' h = cc h

  panic≢done :
      (m : String) (b : Bool) (r : Reader codec writer checkpoint)
      → ◌≡◌ {A = Outcome (Bool × Reader codec writer checkpoint)} (panic m) (done (b, r))
      → ⊥
  panic≢done m b r h = cc

  -- Where the loop ends at once, nothing more is received.
  ends :
      (r₀ r r' : Reader codec writer checkpoint) (f p xs : List Received)
      → Progress codec writer checkpoint r₀ r f p
      → r ≡ r'
      → xs ≡ []
      → Extends codec writer checkpoint r₀ r' ((f ++ p) ++ xs)
  ends r₀ r r' f p xs g e n =
      rw (n, append-nil (f ++ p))
        (f, p, refl, subst (λ x. Progress codec writer checkpoint r₀ x f p) e g)

  step-Extends :
      (r₀ r r' : Reader codec writer checkpoint) (e : Event) (f p : List Received)
      → Progress codec writer checkpoint r₀ r f p
      → step codec writer checkpoint r e ≡ done r'
      → Extends codec writer checkpoint r₀ r' ((f ++ p) ++ received_at codec.unmarshal_data e)
        × (r'.collecting ≡ next_collecting r.collecting e)
  unfolding step
  step-Extends r₀ r r' consumer_error f p g h =
      let k : r ≡ r' = done-injective r r' h in
      (ends r₀ r r' f p [] g k refl, sym (ap (λ x. x.collecting) k))
  step-Extends r₀ r r' (message msg) f p g h =
      (receive-Extends codec writer checkpoint r₀ r r' msg f p g h, collecting-receive r r' msg h)
  step-Extends r₀ r r' messages_closed f p g h =
      let k : r ≡ r' = done-injective r r' h in
      (ends r₀ r r' f p [] g k refl, sym (ap (λ x. x.collecting) k))
  step-Extends r₀ r r' tick f p g h = (
    rw (append-nil (f ++ p))
        (on_tick-Extends codec writer checkpoint r₀ r r' r.last_msg f p g refl h),
    collecting-on_tick r r' r.last_msg h,
  )
  step-Extends r₀ r r' stop_call f p g h =
      let k : record r { collecting = after_stop r.collecting } ≡ r' = cc (stop_lem r, h) in
      (
        ends r₀ (record r { collecting = after_stop r.collecting }) r' f p []
            (stop-Progress r₀ r f p g) k refl,
        sym (ap (λ x. x.collecting) k),
      )

  index_loop-Extends :
      (r₀ r r' : Reader codec writer checkpoint) (over : Bool) (es : List Event)
      (f p : List Received)
      → Progress codec writer checkpoint r₀ r f p
      → index_loop codec writer checkpoint r es ≡ done (over, r')
      → Extends codec writer checkpoint r₀ r'
          ((f ++ p) ++ received codec.unmarshal_data r.collecting es)
  unfolding index_loop
  index_loop-Extends r₀ r r' b [] f p g h =
      ends r₀ r r' f p [] g (same_reader (r.collecting == stopped) b r r' h) refl
  index_loop-Extends r₀ r r' b (e ∷ es) f p g h = elim (Bool-cases (r.collecting == stopped)) [
    | inl over ↦
        rw over (ends r₀ r r' f p [] g (same_reader true b r r' (rw (over, index_loop) at h)) refl)
    | inr on ↦ elim (Outcome-cases (step codec writer checkpoint r e)) [
      | inr (m, s) ↦ absurd (panic≢done m b r' (rw (on, s, index_loop) at h))
      | inl (q, s) ↦
          let ((f', p', all, g'), c) = step-Extends r₀ r q e f p g s in
          let rest = index_loop-Extends r₀ q r' b es f' p' g' (rw (on, s, index_loop) at h) in
          rw on (
            rw
              (
                ← append_assoc (f ++ p) (received_at codec.unmarshal_data e)
                    (received codec.unmarshal_data (next_collecting r.collecting e) es),
                ← all,
                ← c,
              )
              rest)
    ]
  ]

  -- If the first IndexData returns on any events, or waits for more after them, the messages that
  -- decode and come before an effective Stop are, in order, those delivered to the writer followed by fewer
  -- than 16 pending ones, which the batch holds; and the store holds the offset after the last
  -- delivered message, or what it held before if none was delivered.
  pub index_data-Extends :
      (r r' : Reader codec writer checkpoint) (over : Bool) (es : List Event)
      → r.start_indexing ≡ 0
      → index_data codec writer checkpoint r es ≡ done (over, r')
      → Extends codec writer checkpoint r r' (received codec.unmarshal_data r.collecting es)
  unfolding index_data
  index_data-Extends r r' over es first h =
      let r₁ = record r { start_indexing = 1; last_msg = none; batchs = [] } in
      let (f, p, all, g) =
        index_loop-Extends r₁ r₁ r' over es [] []
          (record {
            delivers = sym (append-nil (writer.delivered r.sink));
            holds = refl;
            small = omega arith;
            last = refl;
            resumes = refl;
            same_state = refl;
            same_config = refl;
          })
          (rw first at h) in
      (
        f,
        p,
        all,
        record {
          delivers = g.delivers;
          holds = g.holds;
          small = g.small;
          last = g.last;
          resumes =
              Resumes-from codec writer checkpoint r r₁ r' (last_message none f) refl refl
                g.resumes;
          same_state = g.same_state;
          same_config = g.same_config;
        },
      )
