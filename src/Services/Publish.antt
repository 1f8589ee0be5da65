-- ===== src/Services/Publish.antt =====
-- Leadership and the publishing of tasks in services/schedule_service.go. The JSON codec and the
-- writer are parameters; what the goroutines receive, and the calls by others, are events. The
-- waiting of a send on a full channel is left out.
pub mod Addressed
mod Tests
use descartes_legacy.Prelude.{
  ℕ, ◌≡◌, refl, sym, ◌∙◌, ap, String, Bool, true, false, Option, none, some, List, [], ◌∷◌, ◌++◌,
  if◌then◌else◌, str_eq, All, inl, inr, Bool-cases,
}
use descartes_legacy.Prelude.Int.{ℤ}
use descartes_legacy.Prelude.Map.{index}
use descartes_legacy.Prelude.Result.{Result, ok, err}
use descartes_legacy.Base.Consts
use descartes_legacy.Base.Data.{Bytes, BaseConfig, new_data, DataWriter}
use descartes_legacy.Services.Hosts.{
  Collectors, refresh_registered_collectors, get_available_gathering_host,
}

-- The config of the writer of the tasks.
abbrev pub broker_config : BaseConfig → BaseConfig
broker_config config =
    (Consts.kafka_brokers, index Consts.kafka_brokers config)
    ∷ (Consts.kafka_topic, Consts.tasks)
    ∷ []

module _ (marshal : BaseConfig → Result Bytes) (writer : DataWriter) where
  pub record Publisher : Type 0 where
    pub config : BaseConfig
    pub is_leader : Bool
    pub task_chan : List BaseConfig
    pub live_collectors : Collectors
    pub sink : writer.Sink

  -- The call of a job, a change of the collectors or of the participants of the election, with what
  -- the ensemble answers, and a task taken from the channel, with the time and the random number of
  -- getAvailableGatheringHost. The events are those that the loops receive: after Stop each may
  -- receive one more.
  pub data Event : Type 0 where
    publish : BaseConfig → Event
    collectors : Result (List String) → Event
    participants : Result Bool → Event
    take : ℤ → ℕ → Event

  -- publishTaskToKafka
  unfoldable pub publish_task_to_kafka : BaseConfig → Publisher → Publisher
  publish_task_to_kafka task p = record p { task_chan = p.task_chan ++ task ∷ [] }

  -- One round of monitorLeaderChanges: an error keeps the role.
  unfoldable pub change_role : Result Bool → Publisher → Publisher
  change_role (ok b) p = record p { is_leader = b }
  change_role (err _) p = p

  -- doPublishTask with the host that was found.
  abbrev pub send_to : String → Bytes → Publisher → Publisher
  send_to host raw p = if str_eq host "" then p else record p {
    sink = (writer.write_data (new_data ((Consts.host, host) ∷ []) (raw ∷ [])) p.sink).1;
  }

  abbrev pub send : ℤ → ℕ → BaseConfig → Result Bytes → Publisher → Publisher
  send now r task (err _) p = p
  send now r task (ok raw) p =
      send_to (get_available_gathering_host p.config now r task p.live_collectors) raw p

  abbrev pub take_from : List BaseConfig → ℤ → ℕ → Publisher → Publisher
  take_from [] now r p = p
  take_from (task ∷ tasks) now r p =
      let p' = record p { task_chan = tasks } in
      if p.is_leader then send now r task (marshal task) p' else p'

  -- One round of doPublishTask.
  unfoldable pub do_publish_task : ℤ → ℕ → Publisher → Publisher
  do_publish_task now r p = take_from p.task_chan now r p

  unfoldable pub step : Publisher → Event → Publisher
  unfolding publish_task_to_kafka change_role do_publish_task
  step p (publish task) = publish_task_to_kafka task p
  step p (collectors answer) = record p { live_collectors = refresh_registered_collectors answer }
  step p (participants answer) = change_role answer p
  step p (take now r) = do_publish_task now r p

  unfoldable pub run : Publisher → List Event → Publisher
  unfolding step
  run p [] = p
  run p (e ∷ es) = run (step p e) es

  -- The ensemble answers that this scheduler is the leader.
  abbrev pub promotes : Event → Bool
  promotes (participants (ok true)) = true
  promotes _ = false

  take_from-silent :
      (tasks : List BaseConfig) (now : ℤ) (r : ℕ) (p : Publisher)
      → p.is_leader ≡ false
      → ((take_from tasks now r p).sink ≡ p.sink) × ((take_from tasks now r p).is_leader ≡ false)
  take_from-silent [] now r p h = (refl, h)
  take_from-silent (task ∷ tasks) now r p h = rw h (refl, refl)

  step-silent :
      (p : Publisher) (e : Event)
      → p.is_leader ≡ false
      → promotes e ≡ false
      → ((step p e).sink ≡ p.sink) × ((step p e).is_leader ≡ false)
  unfolding step publish_task_to_kafka change_role do_publish_task
  step-silent p (publish task) h n = (refl, h)
  step-silent p (collectors answer) h n = (refl, h)
  step-silent p (participants (ok true)) h n = cc n
  step-silent p (participants (ok false)) h n = (refl, refl)
  step-silent p (participants (err m)) h n = (refl, h)
  step-silent p (take now r) h n = take_from-silent p.task_chan now r p h

  -- A scheduler that is not the leader, and that the ensemble never answers that it is, publishes no
  -- task, whatever its jobs, the collectors and the other participants do.
  pub run-silent :
      (p : Publisher) (es : List Event)
      → p.is_leader ≡ false
      → All (λ e. promotes e ≡ false) es
      → (run p es).sink ≡ p.sink
  unfolding run
  run-silent p [] h a = refl
  run-silent p (e ∷ es) h a =
      let (same, follower) = step-silent p e h a.0 in run-silent (step p e) es follower a.1 ∙ same
