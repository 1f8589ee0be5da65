-- ===== src/Services/Schedule/Wellformed.antt =====
-- The scheduler behind the tasks of services/schedule_service.go: its tree stays sorted, every
-- new job gets an id and an object of its own, and a deleted task has no job left in the tree.
use mathlib.Core.List.{Perm}
use descartes_legacy.Prelude.{
  ℕ, suc, ◌≤◌, ◌<◌, ◌≡◌, refl, sym, ◌∙◌, ap, some, List, [], ◌∷◌, arith, Bool-cases, inl, inr, All,
  All-map, ◌==◌,
}
use descartes_legacy.Prelude.Int.{ℤ, pos, ◌+ℤ◌, int64, half_64}
use descartes_legacy.Prelude.Decimal.{format_int}
use descartes_legacy.Prelude.Decimal.RoundTrip.{format_nat-injective}
use descartes_legacy.Prelude.Result.{ok}
use descartes_legacy.Base.Data.{BaseConfig}
use descartes_legacy.Base.Job.{BaseJob, new_job, publish_task_to_kafka}
use descartes_legacy.Base.Scheduler.{Scheduler, write, less_in, add_jobs}
use descartes_legacy.Base.Scheduler.Tree.{OrderedTree}
use descartes_legacy.Base.Scheduler.Invariant.{
  Apart, HasDistinctIds, IsWell, add_job-IsWell, add_job-items, All-insert_sorted, heap_with,
  id-heap_with, write-IsSorted, write-HasDistinctIds,
}
use descartes_legacy.Services.Schedule.{ScheduleService, Moment, create_with, schedule_job, seconds}

module _ (tree : OrderedTree) where
  -- `n` jobs were created so far. The object at an address has the address as its id, and the
  -- objects beyond `n`, which do not exist yet, have the id that they will get.
  pub record IsWellFormed (n : ℕ) (s : ScheduleService tree) : Type 0 where
    pub well : IsWell tree s.job_scheduler
    pub ids : (a : ℕ) → (s.job_scheduler.heap a).id ≡ format_int (pos a)
    pub count : s.job_id ≡ pos n
    pub fresh : All (λ a. a ≤ n) (tree.items s.job_scheduler.jobs)

  ids-distinct :
      (heap : ℕ → BaseJob) → ((a : ℕ) → (heap a).id ≡ format_int (pos a)) → HasDistinctIds heap
  unfolding format_int
  ids-distinct heap ids a b n e =
      let k : a ≡ b = format_nat-injective a b (sym (ids a) ∙ e ∙ ids b) in ground (arith, k, n)

  Apart-of_fresh : (n : ℕ) (l : List ℕ) → All (λ a. a ≤ n) l → Apart (suc n) l
  Apart-of_fresh n [] h = tt
  Apart-of_fresh n (a ∷ l) h = (ground (arith, h.0), Apart-of_fresh n l h.1)

  next_id : (n : ℕ) → suc n < half_64 → int64 (pos n +ℤ pos 1) ≡ pos (suc n)
  unfolding int64 ◌+ℤ◌
  next_id n h = ground arith

  id-write_same :
      (heap : ℕ → BaseJob) (x : ℕ) (job : BaseJob)
      → job.id ≡ format_int (pos x)
      → ((a : ℕ) → (heap a).id ≡ format_int (pos a))
      → (a : ℕ) → (write x job heap a).id ≡ format_int (pos a)
  unfolding write
  id-write_same heap x job e ids a = elim (Bool-cases (x == a)) [
    | inl c ↦ rw c (e ∙ ap (λ y. format_int (pos y)) (ground (arith, c)))
    | inr c ↦ rw c (ids a)
  ]

  -- A scheduler with sorted jobs, the reserved ids and no job beyond `n`.
  record IsReady (n : ℕ) (s : Scheduler tree) : Type 0 where
    well : IsWell tree s
    ids : (a : ℕ) → (s.heap a).id ≡ format_int (pos a)
    fresh : All (λ a. a ≤ n) (tree.items s.jobs)

  create-IsReady :
      (n : ℕ) (job : BaseJob) (s : Scheduler tree)
      → IsReady n s
      → job.id ≡ format_int (pos (suc n))
      → IsReady n (record s { heap = write (suc n) job s.heap })
  create-IsReady n job s w e =
      let apart = Apart-of_fresh n (tree.items s.jobs) w.fresh in
      record {
        well = record {
          sorted = write-IsSorted s.heap (suc n) job (tree.items s.jobs) apart w.well.sorted;
          ids = write-HasDistinctIds s.heap (suc n) job (e ∙ sym (w.ids (suc n))) w.well.ids;
        };
        ids = id-write_same s.heap (suc n) job e w.ids;
        fresh = w.fresh;
      }

  add_jobs-IsReady :
      (now : ℤ) (random : ℕ → ℕ) (n : ℕ) (s : Scheduler tree)
      → IsReady n s
      → IsReady (suc n) (add_jobs tree now random (suc n ∷ []) s)
        × Perm
            (tree.items (add_jobs tree now random (suc n ∷ []) s).jobs)
            (suc n ∷ tree.items s.jobs)
  unfolding add_jobs
  add_jobs-IsReady now random n s w =
      let apart = Apart-of_fresh n (tree.items s.jobs) w.fresh in
      let (x, p) = add_job-IsWell tree now (random 0) (suc n) s w.well apart in
      (
        record {
          well = record { sorted = x.sorted; ids = x.ids };
          ids = λ a. id-heap_with tree now (random 0) (suc n) a s ∙ w.ids a;
          fresh = rw (add_job-items tree now (random 0) (suc n) s w.well apart) (
              All-insert_sorted (λ a. a ≤ suc n) (less_in (heap_with tree now (random 0) (suc n) s))
                (suc n) (tree.items s.jobs) (omega arith)
                (All-map (λ a h. omega arith) (tree.items s.jobs) w.fresh));
        },
        p,
      )

  -- A job that is created and added keeps the service well formed.
  pub schedule_job-IsWellFormed :
      (at : Moment tree) (config : BaseConfig) (s : ScheduleService tree) (i : ℤ) (n : ℕ)
      → IsWellFormed n s
      → suc n < half_64
      → IsWellFormed (suc n) (schedule_job tree at (create_with tree at config s (ok i))).1
        × Perm
            (tree.items
              (schedule_job tree at (create_with tree at config s (ok i))).1.job_scheduler.jobs)
            (suc n ∷ tree.items s.job_scheduler.jobs)
        × ((schedule_job tree at (create_with tree at config s (ok i))).0 ≡ some (suc n))
  unfolding new_job
  schedule_job-IsWellFormed at config s i n w h =
      let e : int64 (s.job_id +ℤ pos 1) ≡ pos (suc n) =
        ap (λ z. int64 (z +ℤ pos 1)) w.count ∙ next_id n h in
      let job : BaseJob = record {
        f = some publish_task_to_kafka;
        when = at.now;
        interval = seconds i;
        id = format_int (pos (suc n));
        params = config;
      } in
      let ready : IsReady n s.job_scheduler = record {
        well = w.well;
        ids = w.ids;
        fresh = w.fresh;
      } in
      let (x, p) =
        add_jobs-IsReady at.now at.random n
          (record s.job_scheduler { heap = write (suc n) job s.job_scheduler.heap })
          (create-IsReady n job s.job_scheduler ready refl) in
      rw e (record { well = x.well; ids = x.ids; count = refl; fresh = x.fresh }, p, refl)
