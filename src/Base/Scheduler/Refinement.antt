-- ===== src/Base/Scheduler/Refinement.antt =====
-- Any sequence of operations of the scheduler of base/scheduler.go does what the timetable says.
use mathlib.Core.Path.{fun_ext}
use descartes_legacy.Prelude.{ℕ, ◌≡◌, refl, subst, List, [], ◌∷◌, ◌++◌, map}
use descartes_legacy.Prelude.Int.{ℤ}
use descartes_legacy.Base.Scheduler.{
  Scheduler, Call, started, called, add_job, remove_job, get_ready_jobs,
}
use descartes_legacy.Base.Scheduler.Tree.{OrderedTree}
use descartes_legacy.Base.Scheduler.Due.{take_due, drop_due, take_due-append-drop_due}
use descartes_legacy.Base.Scheduler.Invariant.{IsWell}
use descartes_legacy.Base.Scheduler.Invariant.Reschedule.{
  IsDistinct, IsSorted-parts, get_ready_jobs-IsWell,
}
use descartes_legacy.Base.Scheduler.Members.{mem, mem-due}
use descartes_legacy.Base.Scheduler.Steps.{
  step-IsWell, step-entry, step-max_delay, do_round-RoundOf,
}
use descartes_legacy.Base.Scheduler.Timetable.{
  Timetable, is_ready, entry, Op, add, remove, round, step, next, Allows,
}

module _ (tree : OrderedTree) where
  -- The calls of jobs that an operation makes: a job is started when it is added, and a round calls
  -- each job that is scheduled and due in the timetable, once.
  abbrev pub Makes : Op tree → Timetable → List Call → List Call → Type 0
  Makes (add now r a) p calls calls' = calls' ≡ calls ++ started a ∷ []
  Makes (remove a) p calls calls' = calls' ≡ calls
  Makes (round now w) p calls calls' =
      (ready : List ℕ) × (calls' ≡ calls ++ map called ready)
      × IsDistinct ready
      × ((b : ℕ) → mem b ready ≡ is_ready now (p b))

  -- The operations that the timetable allows, one after the other.
  abbrev pub AllowsAll : ℤ → Timetable → List (Op tree) → Type 0
  AllowsAll max_delay p [] = Unit
  AllowsAll max_delay p (op ∷ ops) =
      Allows tree p op × AllowsAll max_delay (next tree max_delay op p) ops

  -- After each operation the jobs are as in the timetable, and each makes the calls that it says.
  abbrev pub Simulates : List (Op tree) → Scheduler tree → ℤ → Timetable → Type 0
  Simulates [] s max_delay p = entry tree s ≡ p
  Simulates (op ∷ ops) s max_delay p =
      (entry tree s ≡ p)
      × Makes op p s.calls (step tree op s).calls
      × Simulates ops (step tree op s) max_delay (next tree max_delay op p)

  step-Makes :
      (op : Op tree) (s : Scheduler tree)
      → IsWell tree s
      → Makes op (entry tree s) s.calls (step tree op s).calls
  unfolding step add_job remove_job get_ready_jobs
  step-Makes (add now r a) s w = refl
  step-Makes (remove a) s w = refl
  step-Makes (round now v) s w =
      let l = tree.items s.jobs in
      let (well, ready, perm) = get_ready_jobs-IsWell tree now s w in
      let parts =
        IsSorted-parts s.heap (take_due now s.heap l) (drop_due now s.heap l)
          (rw (take_due-append-drop_due now s.heap l) w.sorted) in
      (
        take_due now s.heap l,
        rw (← ready) (do_round-RoundOf tree now v s).calls,
        parts.0,
        λ b. (mem-due now s.heap b l w.sorted).0,
      )

  -- From a well-formed scheduler any sequence of additions, removals and rounds of the loop, in which
  -- no job is added that is scheduled at that time, does what the timetable says: after each
  -- operation each job has the time, the interval and the state, scheduled or not, that the
  -- timetable has; an addition starts the job; and a round calls exactly the jobs that are scheduled
  -- and due in the timetable, each once.
  pub step-Simulates :
      (ops : List (Op tree)) (s : Scheduler tree)
      → IsWell tree s
      → AllowsAll s.max_delay (entry tree s) ops
      → Simulates ops s s.max_delay (entry tree s)
  step-Simulates [] s w h = refl
  step-Simulates (op ∷ ops) s w h =
      let same : entry tree (step tree op s) ≡ next tree s.max_delay op (entry tree s) =
        fun_ext (λ b. step-entry tree op s b w h.0) in
      let delay = step-max_delay tree op s in
      let rest =
        step-Simulates ops (step tree op s) (step-IsWell tree op s w h.0) (rw (delay, same) h.1) in
      (
        refl,
        step-Makes op s w,
        rw (← same) (
            subst (λ d. Simulates ops (step tree op s) d (entry tree (step tree op s))) delay rest),
      )
