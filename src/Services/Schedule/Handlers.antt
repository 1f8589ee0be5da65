-- ===== src/Services/Schedule/Handlers.antt =====
-- What the handlers of services/schedule_service.go do to a well-formed service.
use descartes_legacy.Prelude.{
  ℕ, suc, ◌+◌, ◌≤◌, ◌<◌, ◌≡◌, String, Option, none, some, List, [], ◌∷◌, str_eq, arith, Bool-cases,
  Option-cases, inl, inr, length,
}
use descartes_legacy.Prelude.Int.{half_64}
use descartes_legacy.Prelude.Map.{lookup, has, index}
use descartes_legacy.Prelude.Decimal.{parse_int64}
use descartes_legacy.Prelude.Result.{Result, ok, err, Result-cases}
use descartes_legacy.Base.Consts
use descartes_legacy.Base.Data.{Bytes, BaseConfig}
use descartes_legacy.Base.Scheduler.{less_in, remove_jobs}
use descartes_legacy.Base.Scheduler.Tree.{OrderedTree}
use descartes_legacy.Base.Scheduler.Invariant.{
  All-remove_equal, remove_job-IsWell, remove_job-items, without,
}
use descartes_legacy.Services.Schedule.{
  ScheduleService, Moment, create_with, schedule_job, add_job, register, handle_new_task,
  handle_delete_task, handle_update_task, handle_task, handle_decoded, handle_tasks,
}
use descartes_legacy.Services.Schedule.Wellformed.{IsWellFormed, schedule_job-IsWellFormed}

module _ (tree : OrderedTree) where
  -- What a handler may do to a well-formed service with `n` jobs: it creates at most `k` more.
  abbrev pub Grows : ℕ → ℕ → ScheduleService tree → Type 0
  Grows n k s = (m : ℕ) × (m ≤ n + k) × IsWellFormed tree m s

  register-IsWellFormed :
      (key : String) (config : BaseConfig) (m : ℕ) (r : Option ℕ × ScheduleService tree)
      → IsWellFormed tree m r.1
      → IsWellFormed tree m (register tree key config r)
  register-IsWellFormed key config m (none, s) w = w
  register-IsWellFormed key config m (some a, s) w = record {
    well = w.well;
    ids = w.ids;
    count = w.count;
    fresh = w.fresh;
  }

  add_job-Grows :
      (at : Moment tree) (key : String) (config : BaseConfig) (s : ScheduleService tree) (n : ℕ)
      → IsWellFormed tree n s
      → suc n < half_64
      → Grows n 1 (register tree key config (add_job tree at config s))
  unfolding add_job
  add_job-Grows at key config s n w h =
      elim (Result-cases (parse_int64 (index Consts.interval config))) [
        | inl (i, e) ↦ rw (e) (
          suc n,
          omega arith,
          register-IsWellFormed key config (suc n)
              (schedule_job tree at (create_with tree at config s (ok i)))
              (schedule_job-IsWellFormed tree at config s i n w h).0,
        )
        | inr (m, e) ↦ rw e (n, omega arith, w)
      ]

  handle_new_task-Grows :
      (at : Moment tree) (config : BaseConfig) (s : ScheduleService tree) (n : ℕ)
      → IsWellFormed tree n s
      → suc n < half_64
      → Grows n 1 (handle_new_task tree at config s)
  unfolding handle_new_task
  handle_new_task-Grows at config s n w h =
      elim (Bool-cases (has (index Consts.task_config_key config) s.jobs)) [
        | inl e ↦ rw e (n, omega arith, w)
        | inr e ↦ elim (Bool-cases (str_eq (index Consts.app config) Consts.kafka_app)) [
          | inl k ↦
              rw (e, k)
                (
                  n,
                  omega arith,
                  record { well = w.well; ids = w.ids; count = w.count; fresh = w.fresh },
                )
          | inr k ↦
              rw (e, k) (add_job-Grows at (index Consts.task_config_key config) config s n w h)
        ]
      ]

  -- A delete of a key that has a job takes exactly this job out of the scheduler's tree.
  pub handle_delete_task-items :
      (config : BaseConfig) (s : ScheduleService tree) (n a : ℕ)
      → IsWellFormed tree n s
      → lookup (index Consts.task_config_key config) s.jobs ≡ some a
      → tree.items (handle_delete_task tree config s).job_scheduler.jobs
        ≡ without a (tree.items s.job_scheduler.jobs)
  unfolding handle_delete_task remove_jobs
  handle_delete_task-items config s n a w h =
      rw (h, handle_delete_task) (remove_job-items tree a s.job_scheduler w.well)

  handle_delete_task-IsWellFormed :
      (config : BaseConfig) (s : ScheduleService tree) (n : ℕ)
      → IsWellFormed tree n s
      → IsWellFormed tree n (handle_delete_task tree config s)
  unfolding handle_delete_task remove_jobs
  handle_delete_task-IsWellFormed config s n w =
      elim (Option-cases (lookup (index Consts.task_config_key config) s.jobs)) [
        | inl e ↦ rw (e, handle_delete_task) w
        | inr (a, e) ↦
            let x = remove_job-IsWell tree a s.job_scheduler w.well in
            rw (e, handle_delete_task)
              (record {
                well = record { sorted = x.sorted; ids = x.ids };
                ids = w.ids;
                count = w.count;
                fresh =
                    rw
                      (tree.items-delete (less_in s.job_scheduler.heap) a s.job_scheduler.jobs
                        w.well.sorted)
                      (All-remove_equal (λ b. b ≤ n) (less_in s.job_scheduler.heap) a
                        (tree.items s.job_scheduler.jobs) w.fresh);
              })
      ]

  handle_task-Grows :
      (at : Moment tree) (config : BaseConfig) (s : ScheduleService tree) (n : ℕ)
      → IsWellFormed tree n s
      → suc n < half_64
      → Grows n 1 (handle_task tree at config s)
  unfolding handle_task handle_update_task
  handle_task-Grows at config s n w h =
      let action = index Consts.task_config_action config in
      let deleted = handle_delete_task-IsWellFormed config s n w in
      elim (Bool-cases (str_eq action Consts.task_config_new)) [
        | inl e ↦ rw e (handle_new_task-Grows at config s n w h)
        | inr e ↦ elim (Bool-cases (str_eq action Consts.task_config_delete)) [
          | inl d ↦ rw (e, d) (n, omega arith, deleted)
          | inr d ↦ elim (Bool-cases (str_eq action Consts.task_config_update)) [
            | inl u ↦
                rw (e, d, u)
                  (handle_new_task-Grows at config (handle_delete_task tree config s) n deleted h)
            | inr u ↦ rw (e, d, u) (n, omega arith, w)
          ]
        ]
      ]

  handle_decoded-Grows :
      (at : Moment tree) (r : Result BaseConfig) (s : ScheduleService tree) (n : ℕ)
      → IsWellFormed tree n s
      → suc n < half_64
      → Grows n 1 (handle_decoded tree at r s)
  handle_decoded-Grows at (ok c) s n w h = handle_task-Grows at c s n w h
  handle_decoded-Grows at (err m) s n w h = (n, omega arith, w)

  -- Any task data keep the service well formed, each creating at most one job, as long as the
  -- counter of the jobs stays an int64.
  pub handle_tasks-IsWellFormed :
      (unmarshal : Bytes → Result BaseConfig) (at : ℕ → Moment tree) (i : ℕ) (raws : List Bytes)
      (s : ScheduleService tree) (n : ℕ)
      → IsWellFormed tree n s
      → n + length raws < half_64
      → (m : ℕ) × (m ≤ n + length raws)
        × IsWellFormed tree m (handle_tasks tree unmarshal at i raws s)
  unfolding handle_tasks
  handle_tasks-IsWellFormed unmarshal at i [] s n w h = (n, omega arith, w)
  handle_tasks-IsWellFormed unmarshal at i (raw ∷ rest) s n w h =
      let (m, le, w') = handle_decoded-Grows (at i) (unmarshal raw) s n w (omega arith) in
      let (m', le', w'') =
        handle_tasks-IsWellFormed unmarshal at (suc i) rest
          (handle_decoded tree (at i) (unmarshal raw) s) m w' (omega arith) in
      (m', omega arith, w'')
