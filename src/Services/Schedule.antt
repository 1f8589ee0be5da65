-- ===== src/Services/Schedule.antt =====
-- services/schedule_service.go: the tasks of the scheduler. The JSON codec and the time are
-- arguments. A new job is an object at the address that is its id.
pub mod Tasks
pub mod Wellformed
pub mod Handlers
mod Tests
use descartes_legacy.Prelude.{
  ℕ, zero, suc, ◌+◌, ◌*◌, String, Bool, true, false, Option, none, some, List, [], ◌∷◌, ◌++◌,
  if◌then◌else◌, str_eq,
}
use descartes_legacy.Prelude.Int.{ℤ, pos, negsuc, int64, pos_part, neg_part, sub_ℕ}
use descartes_legacy.Prelude.Map.{Map, lookup, has, insert, delete, index}
use descartes_legacy.Prelude.Decimal.{parse_int64}
use descartes_legacy.Prelude.Result.{Result, ok, err}
use descartes_legacy.Base.Consts
use descartes_legacy.Base.Data.{Bytes, BaseConfig, Data}
use descartes_legacy.Base.Job.{BaseJob, JobFunc, publish_task_to_kafka, new_job}
use descartes_legacy.Base.Scheduler.{Scheduler, write, add_jobs, remove_jobs}
use descartes_legacy.Base.Scheduler.Tree.{OrderedTree}

-- interval * int64(time.Second)
unfoldable pub seconds : ℤ → ℤ
seconds (pos n) = int64 (pos (n * 1000000000))
seconds (negsuc n) = int64 (sub_ℕ 0 (suc n * 1000000000))

module _ (tree : OrderedTree) where
  -- The fields that the tasks concern. `config_chan` is the channel of the partition monitor, and
  -- `job_id` the counter of base/job.go.
  pub record ScheduleService : Type 0 where
    pub job_scheduler : Scheduler tree
    pub job_configs : Map BaseConfig
    pub jobs : Map ℕ
    pub config_chan : List BaseConfig
    pub job_id : ℤ

  -- The time that the clock shows, and the random numbers of the scheduler.
  pub record Moment : Type 0 where
    pub now : ℤ
    pub random : ℕ → ℕ

  -- createTaskPublishJob after the interval was parsed.
  abbrev pub create_with :
      Moment → BaseConfig → ScheduleService → Result ℤ → Option ℕ × ScheduleService
  create_with at config s (err _) = (none, s)
  create_with at config s (ok interval) =
      let (job, job_id) =
        new_job (some publish_task_to_kafka) at.now (seconds interval) config s.job_id in
      let a = pos_part job_id in
      let sched = s.job_scheduler in
      (
        some a,
        record s {
          job_scheduler = record sched { heap = write a job sched.heap };
          job_id = job_id;
        },
      )

  -- createTaskPublishJob
  unfoldable pub create_task_publish_job :
      Moment → BaseConfig → ScheduleService → Option ℕ × ScheduleService
  create_task_publish_job at config s =
      create_with at config s (parse_int64 (index Consts.interval config))

  -- AddJob after CreateJob returned.
  abbrev pub schedule_job : Moment → Option ℕ × ScheduleService → Option ℕ × ScheduleService
  schedule_job at (none, s) = (none, s)
  schedule_job at (some a, s) =
      (some a, record s { job_scheduler = add_jobs tree at.now at.random (a ∷ []) s.job_scheduler })

  -- AddJob for the app TaskConfig, whose creation handler is createTaskPublishJob.
  unfoldable pub add_job : Moment → BaseConfig → ScheduleService → Option ℕ × ScheduleService
  unfolding create_task_publish_job
  add_job at config s = schedule_job at (create_task_publish_job at config s)

  -- RemoveJob
  unfoldable pub remove_job : ℕ → ScheduleService → ScheduleService
  remove_job a s = record s { job_scheduler = remove_jobs tree (a ∷ []) s.job_scheduler }

  -- The end of handleNewTask, after AddJob.
  abbrev pub register : String → BaseConfig → Option ℕ × ScheduleService → ScheduleService
  register key config (none, s) = s
  register key config (some a, s) = record s {
    jobs = insert key a s.jobs;
    job_configs = insert key config s.job_configs;
  }

  -- handleNewTask
  unfoldable pub handle_new_task : Moment → BaseConfig → ScheduleService → ScheduleService
  unfolding add_job
  handle_new_task at config s =
      let key = index Consts.task_config_key config in
      if has key s.jobs
      then s
      else if str_eq (index Consts.app config) Consts.kafka_app
      then record s { config_chan = s.config_chan ++ config ∷ [] }
      else register key config (add_job at config s)

  -- handleDeleteTask
  unfoldable pub handle_delete_task : BaseConfig → ScheduleService → ScheduleService
  unfolding remove_job
  handle_delete_task config s =
      let key = index Consts.task_config_key config in
      elim (lookup key s.jobs) [
        | none ↦ s
        | some a ↦
            let s' = remove_job a s in
            record s' { jobs = delete key s.jobs; job_configs = delete key s.job_configs }
      ]

  -- handleUpdateTask
  unfoldable pub handle_update_task : Moment → BaseConfig → ScheduleService → ScheduleService
  unfolding handle_new_task handle_delete_task
  handle_update_task at config s = handle_new_task at config (handle_delete_task config s)

  -- The `switch` of handleTasks. A config without the required keys is only logged: `continue`
  -- there goes on with the next key, and the missing value reads as the empty text.
  unfoldable pub handle_task : Moment → BaseConfig → ScheduleService → ScheduleService
  unfolding handle_new_task handle_delete_task handle_update_task
  handle_task at config s =
      let action = index Consts.task_config_action config in
      if str_eq action Consts.task_config_new
      then handle_new_task at config s
      else if str_eq action Consts.task_config_delete
      then handle_delete_task config s
      else if str_eq action Consts.task_config_update
      then handle_update_task at config s
      else s

  -- One round of the loop of handleTasks: what cannot be decoded is skipped.
  abbrev pub handle_decoded : Moment → Result BaseConfig → ScheduleService → ScheduleService
  handle_decoded at (err _) s = s
  handle_decoded at (ok config) s = handle_task at config s

  -- handleTasks: the moments are those at which the raw data are handled.
  unfoldable pub handle_tasks :
      (Bytes → Result BaseConfig)
      → (ℕ → Moment)
      → ℕ
      → List Bytes
      → ScheduleService
      → ScheduleService
  unfolding handle_task
  handle_tasks unmarshal at i [] s = s
  handle_tasks unmarshal at i (raw ∷ rest) s =
      handle_tasks unmarshal at (suc i) rest (handle_decoded (at i) (unmarshal raw) s)
