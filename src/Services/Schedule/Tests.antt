-- ===== src/Services/Schedule/Tests.antt =====
-- A service that gets a new task and a request to delete it. The raw data are the actions.
use descartes_legacy.Prelude.{
  ℕ, ◌≤◌, ◌≡◌, refl, String, true, none, some, List, [], ◌∷◌, arith, str_eq, if◌then◌else◌,
}
use descartes_legacy.Prelude.Int.{pos, int64, ◌+ℤ◌}
use descartes_legacy.Prelude.Map.{lookup, has, index, insert}
use descartes_legacy.Prelude.Decimal.{format_int, parse_int64}
use descartes_legacy.Prelude.Decimal.RoundTrip.{format_nat-injective}
use descartes_legacy.Prelude.Result.{Result, ok, err}
use descartes_legacy.Base.Consts
use descartes_legacy.Base.Data.{Bytes, BaseConfig}
use descartes_legacy.Base.Job.{publish_task_to_kafka, new_job}
use descartes_legacy.Base.Scheduler.{Store}
use descartes_legacy.Base.Scheduler.Tree.{sorted_list}
use descartes_legacy.Base.Scheduler.Invariant.{HasDistinctIds, without}
use descartes_legacy.Services.Schedule.{
  ScheduleService, Moment, handle_tasks, handle_new_task, handle_delete_task, add_job,
  create_task_publish_job,
}
use descartes_legacy.Services.Schedule.Tasks.{
  IsConsistent, handle_tasks-IsConsistent, handle_delete_task_tables,
}
use descartes_legacy.Services.Schedule.Wellformed.{IsWellFormed}
use descartes_legacy.Services.Schedule.Handlers.{
  handle_tasks-IsWellFormed, handle_delete_task-items,
}

abbrev reserved : Store
reserved a = record {
  f = some publish_task_to_kafka;
  when = pos 5;
  interval = pos 60;
  id = format_int (pos a);
  params = [];
}

abbrev empty : ScheduleService sorted_list
empty = record {
  job_scheduler = record {
    jobs = [];
    heap = reserved;
    wakeup_chan = [];
    is_started = true;
    max_delay = pos 0;
    calls = [];
  };
  job_configs = [];
  jobs = [];
  config_chan = [];
  job_id = pos 0;
}

abbrev task : String → BaseConfig
task action =
    (Consts.task_config_action, action)
    ∷ (Consts.task_config_key, "k")
    ∷ (Consts.interval, "60")
    ∷ []

abbrev unmarshal : Bytes → Result BaseConfig
unmarshal raw = if str_eq raw "" then err "no JSON" else ok (task raw)

abbrev at : ℕ → Moment sorted_list
at i = record { now = pos 100; random = λ n. 0 }

abbrev raws : List Bytes
raws = Consts.task_config_new ∷ "" ∷ Consts.task_config_delete ∷ []

reserved-HasDistinctIds : HasDistinctIds reserved
unfolding format_int
reserved-HasDistinctIds a b n e = let k = format_nat-injective a b e in ground (arith, k, n)

empty-IsWellFormed : IsWellFormed sorted_list 0 empty
empty-IsWellFormed = record {
  well = record { sorted = tt; ids = reserved-HasDistinctIds };
  ids = λ a. refl;
  count = refl;
  fresh = tt;
}

handle_tasks-IsConsistent_example :
    IsConsistent sorted_list (handle_tasks sorted_list unmarshal at 0 raws empty)
unfolding has
handle_tasks-IsConsistent_example =
    handle_tasks-IsConsistent sorted_list unmarshal at 0 raws empty (λ k. refl)

handle_tasks-IsWellFormed_example :
    (m : ℕ) × (m ≤ 3)
    × IsWellFormed sorted_list m (handle_tasks sorted_list unmarshal at 0 raws empty)
handle_tasks-IsWellFormed_example =
    handle_tasks-IsWellFormed sorted_list unmarshal at 0 raws empty 0 empty-IsWellFormed
      (omega arith)

-- The service with a job for the task.
abbrev busy : ScheduleService sorted_list
busy = record empty {
  job_scheduler = record empty.job_scheduler { jobs = 1 ∷ [] };
  job_configs = ("k", task "new") ∷ [];
  jobs = ("k", 1) ∷ [];
  job_id = pos 1;
}

busy-IsWellFormed : IsWellFormed sorted_list 1 busy
busy-IsWellFormed = record {
  well = record { sorted = (tt, tt); ids = reserved-HasDistinctIds };
  ids = λ a. refl;
  count = refl;
  fresh = (omega arith, tt);
}

handle_delete_task-items_example :
    (handle_delete_task sorted_list (task Consts.task_config_delete) busy).job_scheduler.jobs
    ≡ without 1 (1 ∷ [])
unfolding index lookup
handle_delete_task-items_example =
    handle_delete_task-items sorted_list (task Consts.task_config_delete) busy 1 1 busy-IsWellFormed
      refl

handle_delete_task_tables_example :
    lookup "k" (handle_delete_task sorted_list (task Consts.task_config_delete) busy).jobs ≡ (
      if str_eq (index Consts.task_config_key (task Consts.task_config_delete)) "k"
      then none
      else lookup "k" busy.jobs)
handle_delete_task_tables_example =
    handle_delete_task_tables sorted_list (task Consts.task_config_delete) busy "k"

task_is_added :
    lookup "k" (handle_new_task sorted_list (at 0) (task Consts.task_config_new) empty).jobs
    ≡ some 1
unfolding handle_new_task add_job create_task_publish_job new_job parse_int64 index lookup has
    insert int64 ◌+ℤ◌
task_is_added = refl
