-- ===== src/Services/JobFactory/Create.antt =====
-- The creation of jobs in services/job_factory.go. An attempt makes a value or nil, or panics.
use Prim.Native.String.{◌++◌ as append}
use descartes_legacy.Prelude.{
  ◌≡◌, refl, ◌*◌, String, Bool, true, false, Option, none, some, [], ◌∷◌, if◌then◌else◌, str_eq,
}
use descartes_legacy.Prelude.Int.{ℤ, pos}
use descartes_legacy.Prelude.Map.{lookup, index, insert}
use descartes_legacy.Prelude.Text.{join}
use descartes_legacy.Prelude.Decimal.{parse_int64}
use descartes_legacy.Prelude.Result.{Result, ok, err, Error, Outcome, done, panic}
use descartes_legacy.Base.Consts
use descartes_legacy.Base.Data.{BaseConfig}
use descartes_legacy.Base.Job.{call, new_job, reset_func}
use descartes_legacy.Base.ZooKeeper.{long_run_task_root}
use descartes_legacy.Services.Schedule.{seconds}
use descartes_legacy.Services.Topic.{encode_url}
use descartes_legacy.Services.JobFactory.{
  Parts, JobFactory, ReaderJob, Interface, new_snow_job, new_kafka_job, zookeeper_config, second,
  create_checkpointer, get_kafka_client, get_data_writer,
}

module _ (parts : Parts) where
  open parts use {E, Client, Zk, Writer, Checkpoint, Reader}

  abbrev pub Attempt : Type 0 → Type 0
  Attempt A = JobFactory parts → Outcome (Option A × JobFactory parts)

  abbrev pub and_then :
      {A B : Type 0}
      → Outcome (Option A × JobFactory parts)
      → (A → Attempt B)
      → Outcome (Option B × JobFactory parts)
  and_then (panic m) k = panic m
  and_then (done (none, f)) k = done (none, f)
  and_then (done (some a, f)) k = k a f

  infixl 10 ◌>>=◌ ◌>>◌
  abbrev pub ◌>>=◌ : {A B : Type 0} → Attempt A → (A → Attempt B) → Attempt B
  m >>= k = λ f. and_then (m f) k

  abbrev pub ◌>>◌ : {A B : Type 0} → Attempt A → Attempt B → Attempt B
  m >> k = m >>= λ _. k

  -- A constructor of another package.
  abbrev pub lift : {A : Type 0} → (E → Option A × E) → Attempt A
  lift make f = let (a, e) = make f.env in done (a, record f { env = e })

  abbrev pub nothing : {A : Type 0} → Attempt A
  nothing f = done (none, f)

  abbrev pub of_result : {A : Type 0} → Result A → Attempt A
  of_result (ok a) f = done (some a, f)
  of_result (err _) f = done (none, f)

  -- createCheckpointer, with the config after it.
  abbrev pub made :
      Interface Checkpoint × BaseConfig × E
      → JobFactory parts
      → Outcome (Option (Option Checkpoint × BaseConfig) × JobFactory parts)
  made (none, config, e) f = done (none, record f { env = e })
  made (some c, config, e) f = done (some (c, config), record f { env = e })

  abbrev pub checkpointer : BaseConfig → Attempt (Option Checkpoint × BaseConfig)
  checkpointer config f = made (create_checkpointer parts config f.env) f

  abbrev pub built :
      Outcome (Option Reader × E) → JobFactory parts → Outcome (Option Reader × JobFactory parts)
  built (panic m) f = panic m
  built (done (r, e)) f = done (r, record f { env = e })

  abbrev pub snow_reader : BaseConfig → Writer → Option Checkpoint → Attempt Reader
  snow_reader config writer c f = built (parts.new_snow_data_reader config writer c f.env) f

  abbrev pub kafka_reader : Client → BaseConfig → Writer → Option Checkpoint → Attempt Reader
  kafka_reader client config writer c f =
      built (parts.new_kafka_data_reader client config writer c f.env) f

  -- The ReaderJob that calls `job.call`.
  abbrev pub make_job : ℤ → ℤ → BaseConfig → Reader → Option Zk → Attempt (ReaderJob parts)
  make_job now interval config reader zk f =
      let (job, job_id) = new_job none now interval config f.job_id in
      done (
        some (record { job = reset_func (some call) job; reader = reader; zk_client = zk }),
        record f { job_id = job_id },
      )

  -- newSnowJob; `now` is the time of the call.
  unfoldable pub do_new_snow_job : ℤ → BaseConfig → Attempt (ReaderJob parts)
  unfolding seconds
  do_new_snow_job now config = do
    writer ← lift (parts.new_kafka_data_writer config)
    let key_parts =
        ""
        ∷ encode_url (index Consts.server_url config)
        ∷ index Consts.username config
        ∷ index Consts.metric config
        ∷ []
    (checkpoint, config') ← checkpointer (insert Consts.key (join "/" key_parts) config)
    reader ← snow_reader config' writer checkpoint
    interval ← of_result (parse_int64 (index Consts.interval config'))
    make_job now (seconds interval) config' reader none

  -- newKafkaJob after the task was claimed.
  unfoldable pub kafka_job : ℤ → BaseConfig → Option Zk → Attempt (ReaderJob parts)
  kafka_job now config zk = do
    client ← (λ (f : JobFactory parts). done (get_kafka_client parts config f))
    writer ← lift (get_data_writer parts config)
    let key_parts = "" ∷ index Consts.kafka_topic config ∷ index Consts.kafka_partition config ∷ []
    (checkpoint, config') ← checkpointer (insert Consts.key (join "/" key_parts) config)
    reader ← kafka_reader client config' writer checkpoint
    make_job now (pos (15 * second)) config' reader zk

  abbrev pub claimed : Error × E → JobFactory parts → Outcome (Option (Unit {0}) × JobFactory parts)
  claimed (none, e) f = done (some tt, record f { env = e })
  claimed (some _, e) f = done (none, record f { env = e })

  abbrev pub claim_free :
      Zk
      → String
      → Result Bool × E
      → JobFactory parts
      → Outcome (Option (Unit {0}) × JobFactory parts)
  claim_free zk node (ok false, e) f = claimed (parts.create_ephemeral zk node e) f
  claim_free zk node (ok true, e) f = done (none, record f { env = e })
  claim_free zk node (err _, e) f = done (none, record f { env = e })

  -- The node of a long running task is created unless it exists.
  abbrev pub claim : Zk → String → Attempt (Unit {0})
  claim zk node f = claim_free zk node (parts.node_exists zk node f.env) f

  -- The deferred call: without a job the ZooKeeper client is closed.
  abbrev pub close_unless :
      {A : Type 0}
      → Zk
      → Outcome (Option A × JobFactory parts)
      → Outcome (Option A × JobFactory parts)
  close_unless zk (panic m) = panic m
  close_unless zk (done (none, f)) = done (none, record f { env = parts.close_zookeeper zk f.env })
  close_unless zk (done (some a, f)) = done (some a, f)

  abbrev pub task_node : BaseConfig → String
  task_node config = append long_run_task_root (append "/" (index Consts.task_config_key config))

  -- newKafkaJob
  unfoldable pub do_new_kafka_job : ℤ → BaseConfig → Attempt (ReaderJob parts)
  unfolding kafka_job
  do_new_kafka_job now config f =
      if str_eq (index Consts.long_run config) ""
      then kafka_job now config none f
      else (lift (parts.new_zookeeper_client config) >>= λ zk.
            let config' = zookeeper_config config in
            λ g.
              close_unless zk ((claim zk (task_node config') >> kafka_job now config' (some zk)) g))
          f

  -- CreateJob
  unfoldable pub create_job : ℤ → String → BaseConfig → Attempt (ReaderJob parts)
  unfolding do_new_snow_job do_new_kafka_job
  create_job now app config f = elim (lookup app f.creation_tbl) [
    | none ↦ done (none, f)
    | some handler ↦ elim handler [
      | new_snow_job ↦ do_new_snow_job now config f
      | new_kafka_job ↦ do_new_kafka_job now config f
    ]
  ]

  -- A chain that makes a value went through its first part.
  pub and_then-some :
      {A B : Type 0} (m : Outcome (Option A × JobFactory parts)) (k : A → Attempt B) (b : B)
      (f : JobFactory parts)
      → and_then m k ≡ done (some b, f)
      → (a : A) × (g : JobFactory parts) × (m ≡ done (some a, g)) × (k a g ≡ done (some b, f))
  and_then-some (panic m) k b f h = cc h
  and_then-some (done (none, g)) k b f h = cc h
  and_then-some (done (some a, g)) k b f h = (a, g, refl, h)
