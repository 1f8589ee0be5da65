-- ===== src/Services/Publish/Addressed.antt =====
-- What doPublishTask of services/schedule_service.go writes, and to which hosts.
use descartes_legacy.Prelude.{
  ℕ, ◌≡◌, refl, sym, ◌∙◌, ap, String, Bool, true, false, List, [], ◌∷◌, ◌++◌, append-nil,
  append_assoc, if◌then◌else◌, str_eq, All, All-append, inl, inr, Bool-cases, Option-cases,
}
use descartes_legacy.Prelude.Int.{ℤ}
use descartes_legacy.Prelude.Result.{Result, ok, err}
use descartes_legacy.Base.Consts
use descartes_legacy.Base.Data.{Bytes, BaseConfig, Data, new_data, DataWriter}
use descartes_legacy.Services.Hosts.{get_available_gathering_host}
use descartes_legacy.Services.Publish.{
  Publisher, Event, publish, collectors, participants, take, step, run, take_from, send, send_to,
  publish_task_to_kafka, change_role, do_publish_task,
}

module _ (marshal : BaseConfig → Result Bytes) (writer : DataWriter) (P : BaseConfig → Type 0) where
  -- The data are the encoding of one task with the property `P`, for a host with a name.
  pub record Addressed (d : Data) : Type 0 where
    pub task : BaseConfig
    pub from : P task
    pub host : String
    pub raw : Bytes
    pub named : str_eq host "" ≡ false
    pub encoded : marshal task ≡ ok raw
    pub sent : d ≡ new_data ((Consts.host, host) ∷ []) (raw ∷ [])

  -- The tasks that the events publish have the property.
  abbrev pub Publishes : Event marshal writer → Type 0
  Publishes (publish task) = P task
  Publishes _ = Unit

  -- Some data were delivered, all addressed, and the waiting tasks have the property.
  pub record Grows (p p' : Publisher marshal writer) : Type 0 where
    pub new : List Data
    pub delivered : writer.delivered p'.sink ≡ writer.delivered p.sink ++ new
    pub addressed : All Addressed new
    pub waiting : All P p'.task_chan

  same : (p p' : Publisher marshal writer) → p'.sink ≡ p.sink → All P p'.task_chan → Grows p p'
  same p p' e a = record {
    new = [];
    delivered = rw e (sym (append-nil (writer.delivered p.sink)));
    addressed = tt;
    waiting = a;
  }

  write-Grows :
      (d : Data) (p p' : Publisher marshal writer)
      → Addressed d
      → p'.sink ≡ (writer.write_data d p.sink).1
      → All P p'.task_chan
      → Grows p p'
  write-Grows d p p' ad e a = elim (Option-cases (writer.write_data d p.sink).0) [
    | inl w ↦ record {
      new = d ∷ [];
      delivered = rw e (writer.write_nil d p.sink w);
      addressed = (ad, tt);
      waiting = a;
    }
    | inr (m, w) ↦ record {
      new = [];
      delivered = rw e (writer.write_error d p.sink w ∙ sym (append-nil (writer.delivered p.sink)));
      addressed = tt;
      waiting = a;
    }
  ]

  send_to-Grows :
      (host : String) (raw : Bytes) (task : BaseConfig) (p : Publisher marshal writer)
      → P task
      → marshal task ≡ ok raw
      → All P p.task_chan
      → Grows p (send_to marshal writer host raw p)
  send_to-Grows host raw task p t e a = elim (Bool-cases (str_eq host "")) [
    | inl c ↦ rw c (same p p refl a)
    | inr c ↦
        let d = new_data ((Consts.host, host) ∷ []) (raw ∷ []) in
        rw c (
          write-Grows d p (record p { sink = (writer.write_data d p.sink).1 })
            (record {
              task = task;
              from = t;
              host = host;
              raw = raw;
              named = c;
              encoded = e;
              sent = refl;
            })
            refl a)
  ]

  send-Grows :
      (now : ℤ) (r : ℕ) (task : BaseConfig) (x : Result Bytes) (p : Publisher marshal writer)
      → P task
      → marshal task ≡ x
      → All P p.task_chan
      → Grows p (send marshal writer now r task x p)
  send-Grows now r task (err m) p t e a = same p p refl a
  send-Grows now r task (ok raw) p t e a =
      send_to-Grows (get_available_gathering_host p.config now r task p.live_collectors) raw task p
        t e a

  if-Grows :
      (b : Bool) (p x y : Publisher marshal writer)
      → Grows p x
      → Grows p y
      → Grows p (if b then x else y)
  if-Grows true p x y g h = g
  if-Grows false p x y g h = h

  take_from-Grows :
      (tasks : List BaseConfig) (now : ℤ) (r : ℕ) (p : Publisher marshal writer)
      → All P tasks
      → p.task_chan ≡ tasks
      → Grows p (take_from marshal writer tasks now r p)
  take_from-Grows [] now r p a e = same p p refl (rw e tt)
  take_from-Grows (task ∷ tasks) now r p a e =
      let p₁ = record p { task_chan = tasks } in
      let g = send-Grows now r task (marshal task) p₁ a.0 refl a.1 in
      if-Grows p.is_leader p (send marshal writer now r task (marshal task) p₁) p₁
        (record {
          new = g.new;
          delivered = g.delivered;
          addressed = g.addressed;
          waiting = g.waiting;
        })
        (same p p₁ refl a.1)

  step-Grows :
      (p : Publisher marshal writer) (e : Event marshal writer)
      → All P p.task_chan
      → Publishes e
      → Grows p (step marshal writer p e)
  unfolding step publish_task_to_kafka change_role do_publish_task
  step-Grows p (publish task) a t =
      same p (record p { task_chan = p.task_chan ++ task ∷ [] }) refl
        (All-append P p.task_chan (task ∷ []) a (t, tt))
  step-Grows p (collectors answer) a t = same p (step marshal writer p (collectors answer)) refl a
  step-Grows p (participants (ok b)) a t = same p (record p { is_leader = b }) refl a
  step-Grows p (participants (err m)) a t = same p p refl a
  step-Grows p (take now r) a t = take_from-Grows p.task_chan now r p a refl

  -- If the tasks that wait and those that the events publish have a property, then a run keeps what
  -- was delivered and adds only data that each hold the encoding of one task with the property, for
  -- a host whose name is not empty; and the tasks that wait after it have the property.
  pub run-Grows :
      (p : Publisher marshal writer) (es : List (Event marshal writer))
      → All P p.task_chan
      → All Publishes es
      → Grows p (run marshal writer p es)
  unfolding run
  run-Grows p [] a t = same p p refl a
  run-Grows p (e ∷ es) a t =
      let g = step-Grows p e a t.0 in
      let h = run-Grows (step marshal writer p e) es g.waiting t.1 in
      record {
        new = g.new ++ h.new;
        delivered =
            h.delivered
            ∙ ap (λ x. x ++ h.new) g.delivered
            ∙ append_assoc (writer.delivered p.sink) g.new h.new;
        addressed = All-append Addressed g.new h.new g.addressed h.addressed;
        waiting = h.waiting;
      }
