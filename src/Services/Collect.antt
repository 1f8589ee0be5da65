-- ===== src/Services/Collect.antt =====
-- The tasks of services/collect_service.go: a collector carries out the tasks for its host. The
-- job factory is a parameter, with `F` its state and `J` the jobs that it creates.
pub mod Started
pub mod Foreign
pub mod Heartbeats
mod Tests
use descartes_legacy.Prelude.{
  String, Bool, true, false, not, ◌&&◌, Option, none, some, List, [], ◌∷◌, ◌++◌, if◌then◌else◌,
  str_eq,
}
use descartes_legacy.Prelude.Map.{Map, lookup, has, insert, index}
use descartes_legacy.Prelude.Result.{Result, ok, err}
use descartes_legacy.Base.Consts
use descartes_legacy.Base.Data.{Data, Bytes, BaseConfig}

pub record JobFactory : Type 1 where
  pub F : Type 0
  pub J : Type 0
  pub create_job : String → BaseConfig → F → Option J × F

module _ (factory : JobFactory) (unmarshal : Bytes → Result BaseConfig) where
  -- The fields that the tasks concern; `started` and `called` are the jobs on which Start and
  -- Callback were called, the latest last.
  pub record CollectService : Type 0 where
    pub host : String
    pub jobs : Map factory.J
    pub job_factory : factory.F
    pub started : List factory.J
    pub called : List factory.J

  -- The callback of the job in the table.
  abbrev pub call_job : factory.J → CollectService → CollectService
  call_job j cs = record cs { called = cs.called ++ j ∷ [] }

  -- A job that CreateJob returned; the flag says whether handleTasks goes on.
  abbrev pub begin_job :
      String → Option factory.J × factory.F → CollectService → Bool × CollectService
  begin_job key (none, f) cs = (false, record cs { job_factory = f })
  begin_job key (some j, f) cs = (
    true,
    call_job j (record cs {
      jobs = insert key j cs.jobs;
      job_factory = f;
      started = cs.started ++ j ∷ [];
    }),
  )

  abbrev pub create_and_begin : BaseConfig → CollectService → Bool × CollectService
  create_and_begin config cs =
      begin_job (index Consts.task_config_key config)
        (factory.create_job (index Consts.app config) config cs.job_factory) cs

  -- A task for this host: a Kafka task always gets a new job, the others keep theirs.
  unfoldable pub run_task : BaseConfig → CollectService → Bool × CollectService
  run_task config cs =
      if str_eq (index Consts.app config) Consts.kafka_app
      then create_and_begin (insert Consts.long_run "1" config) cs
      else elim (lookup (index Consts.task_config_key config) cs.jobs) [
        | some j ↦ (true, call_job j cs)
        | none ↦ create_and_begin config cs
      ]

  -- One round of the loop of handleTasks.
  abbrev pub handle_raw : String → Result BaseConfig → CollectService → Bool × CollectService
  handle_raw to (err _) cs = (true, cs)
  handle_raw to (ok config) cs =
      if not (has Consts.app config)
      then (true, cs)
      else if not (str_eq to cs.host) && not (str_eq to Consts.broadcast)
      then (false, cs)
      else run_task config cs

  unfoldable pub handle_loop : String → List Bytes → CollectService → CollectService
  unfolding run_task
  handle_loop to [] cs = cs
  handle_loop to (raw ∷ raws) cs =
      let (go_on, cs') = handle_raw to (unmarshal raw) cs in
      let rest = handle_loop to raws cs' in if go_on then rest else cs'

  -- handleTasks
  unfoldable pub handle_tasks : Data → CollectService → CollectService
  unfolding handle_loop
  handle_tasks d cs =
      if has Consts.host d.meta_info
      then handle_loop (index Consts.host d.meta_info) d.raw_data cs
      else cs
