-- ===== src/Base/Scheduler/Tests.antt =====
-- A scheduler over the sorted list with three jobs: the first two are due at 10, and the first of
-- them is periodic.
use mathlib.Core.List.{Perm}
use descartes_legacy.Prelude.{ℕ, zero, suc, ◌≡◌, refl, true, some, List, [], ◌∷◌, ◌++◌, arith}
use descartes_legacy.Prelude.Int.{ℤ, pos}
use descartes_legacy.Prelude.Decimal.{format_int}
use descartes_legacy.Prelude.Decimal.RoundTrip.{format_nat-injective}
use descartes_legacy.Base.Job.{publish_task_to_kafka, less}
use descartes_legacy.Base.Scheduler.{timer, Store, Scheduler, remove_job, get_ready_jobs, pop_ready}
use descartes_legacy.Base.Scheduler.Tree.{sorted_list}
use descartes_legacy.Base.Scheduler.Due.{take_due, drop_due, pop_ready_lem}
use descartes_legacy.Base.Scheduler.Invariant.{IsWell, HasDistinctIds, remove_job-items, without}
use descartes_legacy.Base.Scheduler.Timetable.{Op, add, remove, round, entry, next}
use descartes_legacy.Base.Scheduler.Refinement.{Simulates, AllowsAll, step-Simulates}
use descartes_legacy.Base.Scheduler.Invariant.Reschedule.{get_ready_jobs-IsWell, periodic}

abbrev due_at : ℕ → ℤ
due_at (suc zero) = pos 5
due_at (suc (suc zero)) = pos 9
due_at _ = pos 20

abbrev every : ℕ → ℤ
every (suc zero) = pos 60
every _ = pos 0

abbrev heap : Store
heap a = record {
  f = some publish_task_to_kafka;
  when = due_at a;
  interval = every a;
  id = format_int (pos a);
  params = [];
}

abbrev scheduler : Scheduler sorted_list
scheduler = record {
  jobs = 1 ∷ 2 ∷ 3 ∷ [];
  heap = heap;
  wakeup_chan = [];
  is_started = true;
  max_delay = pos 0;
  calls = [];
}

heap-HasDistinctIds : HasDistinctIds heap
unfolding format_int
heap-HasDistinctIds a b n e = let k = format_nat-injective a b e in ground (arith, k, n)

scheduler-IsWell : IsWell sorted_list scheduler
unfolding less
scheduler-IsWell = record {
  sorted = ((refl, (refl, tt)), ((refl, tt), (tt, tt)));
  ids = heap-HasDistinctIds;
}

two_are_due : (get_ready_jobs sorted_list (pos 10) scheduler).1 ≡ 1 ∷ 2 ∷ []
unfolding get_ready_jobs pop_ready
two_are_due = refl

pop_ready_lem_example :
    ((pop_ready sorted_list 3 (pos 10) heap (1 ∷ 2 ∷ 3 ∷ [])).0
      ≡ take_due (pos 10) heap (1 ∷ 2 ∷ 3 ∷ []))
    × ((pop_ready sorted_list 3 (pos 10) heap (1 ∷ 2 ∷ 3 ∷ [])).1
        ≡ drop_due (pos 10) heap (1 ∷ 2 ∷ 3 ∷ []))
pop_ready_lem_example = pop_ready_lem sorted_list (pos 10) heap (1 ∷ 2 ∷ 3 ∷ [])

remove_job-items_example : (remove_job sorted_list 2 scheduler).jobs ≡ without 2 (1 ∷ 2 ∷ 3 ∷ [])
remove_job-items_example = remove_job-items sorted_list 2 scheduler scheduler-IsWell

get_ready_jobs-IsWell_example :
    IsWell sorted_list (get_ready_jobs sorted_list (pos 10) scheduler).2
    × ((get_ready_jobs sorted_list (pos 10) scheduler).1 ≡ take_due (pos 10) heap (1 ∷ 2 ∷ 3 ∷ []))
    × Perm (get_ready_jobs sorted_list (pos 10) scheduler).2.jobs (
        periodic heap (take_due (pos 10) heap (1 ∷ 2 ∷ 3 ∷ []))
        ++ drop_due (pos 10) heap (1 ∷ 2 ∷ 3 ∷ []))
get_ready_jobs-IsWell_example =
    get_ready_jobs-IsWell sorted_list (pos 10) scheduler scheduler-IsWell

-- Two jobs are due, then the third is removed, and the second, which ran once, is added again.
abbrev ops : List (Op sorted_list)
ops = round (pos 10) timer ∷ remove 3 ∷ add (pos 12) 0 2 ∷ round (pos 30) timer ∷ []

ops-AllowsAll : AllowsAll sorted_list (pos 0) (entry sorted_list scheduler) ops
unfolding next
ops-AllowsAll = (tt, (tt, (refl, (tt, tt))))

step-Simulates_example : Simulates sorted_list ops scheduler (pos 0) (entry sorted_list scheduler)
step-Simulates_example = step-Simulates sorted_list ops scheduler scheduler-IsWell ops-AllowsAll
