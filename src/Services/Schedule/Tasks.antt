-- ===== src/Services/Schedule/Tasks.antt =====
-- The task tables of services/schedule_service.go: which keys have a job and a config.
use descartes_legacy.Prelude.{
  ℕ, suc, ◌≡◌, refl, sym, ◌∙◌, ap, String, Bool, true, Option, none, some, List, [], ◌∷◌,
  if◌then◌else◌, str_eq, eq_iff, Bool-cases, Option-cases, inl, inr,
}
use descartes_legacy.Prelude.Int.{ℤ}
use descartes_legacy.Prelude.Map.{has-insert, has-delete, lookup, has, index, lookup-delete}
use descartes_legacy.Prelude.Decimal.{parse_int64}
use descartes_legacy.Prelude.Result.{Result, ok, err}
use descartes_legacy.Base.Consts
use descartes_legacy.Base.Data.{Bytes, BaseConfig}
use descartes_legacy.Base.Scheduler.Tree.{OrderedTree}
use descartes_legacy.Services.Schedule.{
  ScheduleService, Moment, add_job, register, handle_new_task, handle_delete_task, handle_task,
  handle_tasks, create_with, schedule_job, handle_decoded,
}

abbrev key_of : BaseConfig → String
key_of = index Consts.task_config_key

module _ (tree : OrderedTree) where
  -- A key has a job exactly when it has a config.
  abbrev pub IsConsistent : ScheduleService tree → Type 0
  IsConsistent s = (k : String) → has k s.jobs ≡ has k s.job_configs

  register-IsConsistent :
      (key : String) (config : BaseConfig) (r : Option ℕ × ScheduleService tree)
      → IsConsistent r.1
      → IsConsistent (register tree key config r)
  register-IsConsistent key config (none, s) h = h
  register-IsConsistent key config (some a, s) h =
      λ k. rw (has-insert key k a s.jobs, has-insert key k config s.job_configs, h k) refl

  tables-create_with :
      (at : Moment tree) (config : BaseConfig) (s : ScheduleService tree) (r : Result ℤ)
      → ((schedule_job tree at (create_with tree at config s r)).1.jobs ≡ s.jobs)
        × ((schedule_job tree at (create_with tree at config s r)).1.job_configs ≡ s.job_configs)
  tables-create_with at config s (ok i) = (refl, refl)
  tables-create_with at config s (err m) = (refl, refl)

  -- AddJob leaves the tables alone.
  tables-add_job :
      (at : Moment tree) (config : BaseConfig) (s : ScheduleService tree)
      → ((add_job tree at config s).1.jobs ≡ s.jobs)
        × ((add_job tree at config s).1.job_configs ≡ s.job_configs)
  unfolding add_job
  tables-add_job at config s =
      tables-create_with at config s (parse_int64 (index Consts.interval config))

  handle_new_task-IsConsistent :
      (at : Moment tree) (config : BaseConfig) (s : ScheduleService tree)
      → IsConsistent s
      → IsConsistent (handle_new_task tree at config s)
  unfolding handle_new_task
  handle_new_task-IsConsistent at config s h = elim (Bool-cases (has (key_of config) s.jobs)) [
    | inl e ↦ rw e h
    | inr e ↦ elim (Bool-cases (str_eq (index Consts.app config) Consts.kafka_app)) [
      | inl k ↦ rw (e, k) h
      | inr k ↦
          let (j, c) = tables-add_job at config s in
          rw (e, k)
            (register-IsConsistent (key_of config) config (add_job tree at config s)
              (λ x. ap (has x) j ∙ h x ∙ ap (has x) (sym c)))
    ]
  ]

  handle_delete_task-IsConsistent :
      (config : BaseConfig) (s : ScheduleService tree)
      → IsConsistent s
      → IsConsistent (handle_delete_task tree config s)
  unfolding handle_delete_task
  handle_delete_task-IsConsistent config s h = elim (Option-cases (lookup (key_of config) s.jobs)) [
    | inl e ↦ rw (e, handle_delete_task) h
    | inr (a, e) ↦
        rw (e, handle_delete_task)
          (λ k.
            rw
              (has-delete (key_of config) k s.jobs, has-delete (key_of config) k s.job_configs, h k)
              refl)
  ]

  handle_task-IsConsistent :
      (at : Moment tree) (config : BaseConfig) (s : ScheduleService tree)
      → IsConsistent s
      → IsConsistent (handle_task tree at config s)
  unfolding handle_task
  handle_task-IsConsistent at config s h =
      let action = index Consts.task_config_action config in
      elim (Bool-cases (str_eq action Consts.task_config_new)) [
        | inl e ↦ rw e (handle_new_task-IsConsistent at config s h)
        | inr e ↦ elim (Bool-cases (str_eq action Consts.task_config_delete)) [
          | inl d ↦ rw (e, d) (handle_delete_task-IsConsistent config s h)
          | inr d ↦ elim (Bool-cases (str_eq action Consts.task_config_update)) [
            | inl u ↦
                rw (e, d, u)
                  (handle_new_task-IsConsistent at config (handle_delete_task tree config s)
                    (handle_delete_task-IsConsistent config s h))
            | inr u ↦ rw (e, d, u) h
          ]
        ]
      ]

  handle_decoded-IsConsistent :
      (at : Moment tree) (r : Result BaseConfig) (s : ScheduleService tree)
      → IsConsistent s
      → IsConsistent (handle_decoded tree at r s)
  handle_decoded-IsConsistent at (ok c) s h = handle_task-IsConsistent at c s h
  handle_decoded-IsConsistent at (err m) s h = h

  -- Whatever arrives, decodable or not, a key has a job exactly when it has a config.
  pub handle_tasks-IsConsistent :
      (unmarshal : Bytes → Result BaseConfig) (at : ℕ → Moment tree) (i : ℕ) (raws : List Bytes)
      (s : ScheduleService tree)
      → IsConsistent s
      → IsConsistent (handle_tasks tree unmarshal at i raws s)
  unfolding handle_tasks
  handle_tasks-IsConsistent unmarshal at i [] s h = h
  handle_tasks-IsConsistent unmarshal at i (raw ∷ rest) s h =
      handle_tasks-IsConsistent unmarshal at (suc i) rest
        (handle_decoded tree (at i) (unmarshal raw) s)
        (handle_decoded-IsConsistent (at i) (unmarshal raw) s h)

  -- A delete takes the task's key, and no other key, out of the table of the jobs.
  pub handle_delete_task_tables :
      (config : BaseConfig) (s : ScheduleService tree) (k : String)
      → lookup k (handle_delete_task tree config s).jobs
        ≡ (if str_eq (index Consts.task_config_key config) k then none else lookup k s.jobs)
  unfolding handle_delete_task
  handle_delete_task_tables config s k = elim (Option-cases (lookup (key_of config) s.jobs)) [
    | inl e ↦ rw (e, handle_delete_task) (same (str_eq (key_of config) k) e)
    | inr (a, e) ↦ rw (e, handle_delete_task) (lookup-delete (key_of config) k s.jobs)
  ]
    where
      same :
          (b : Bool)
          → lookup (key_of config) s.jobs ≡ none
          → lookup k s.jobs ≡ (if str_eq (key_of config) k then none else lookup k s.jobs)
      same b e = elim (Bool-cases (str_eq (key_of config) k)) [
        | inl c ↦ rw (c, ← (eq_iff (key_of config) k).0 c) e
        | inr c ↦ rw c refl
      ]

  -- A new task for a key that has a job changes nothing.
  handle_new_task_twice :
      (at : Moment tree) (config : BaseConfig) (s : ScheduleService tree)
      → has (key_of config) s.jobs ≡ true
      → handle_new_task tree at config s ≡ s
  unfolding handle_new_task
  handle_new_task_twice at config s h = rw h refl
