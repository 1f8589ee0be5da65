-- ===== src/Base/Scheduler.antt =====
-- base/scheduler.go: jobs that are due are called, and periodic ones are scheduled again. The jobs
-- are objects in a store, which the tree holds by their addresses. The time and the random numbers
-- are arguments. The waiting of a send on a full channel is left out.
pub mod Tree
pub mod Due
pub mod Members
pub mod Timetable
pub mod Steps
pub mod Refinement
pub mod Invariant
mod Tests
use descartes_legacy.Prelude.{
  ℕ, zero, suc, ◌+◌, ◌%◌, Bool, true, false, Option, none, some, List, [], ◌∷◌, ◌++◌, if◌then◌else◌,
  ◌==◌, ltb,
}
use descartes_legacy.Prelude.Int.{ℤ, pos, negsuc, ◌+ℤ◌, ◌-ℤ◌, int64, ltb_ℤ, pos_part}
use descartes_legacy.Prelude.Result.{Outcome, done, panic}
use descartes_legacy.Base.Job.{
  BaseJob, new_job, less, update_expiration_time, set_intial_expiration_time,
}
use descartes_legacy.Base.Scheduler.Tree.{OrderedTree, Order}

abbrev pub wakeup_num : ℕ
wakeup_num = 1

abbrev pub teardown_num : ℕ
teardown_num = 0

-- The calls of jobs that the scheduler makes, by the address of the job.
pub data Call : Type 0 where
  started : ℕ → Call
  stopped : ℕ → Call
  called : ℕ → Call

abbrev pub Store : Type 0
Store = ℕ → BaseJob

unfoldable pub write : ℕ → BaseJob → Store → Store
write a job heap b = if a == b then job else heap b

-- The order that the jobs of a store have at the moment.
abbrev pub less_in : Store → Order
less_in heap a b = less (heap a) (heap b)

module _ (tree : OrderedTree) where
  pub record Scheduler : Type 0 where
    pub jobs : tree.Tree
    pub heap : Store
    pub wakeup_chan : List ℕ
    pub is_started : Bool
    pub max_delay : ℤ
    pub calls : List Call

  -- NewScheduler, over a store that exists already.
  unfoldable pub new_scheduler : Store → Scheduler
  new_scheduler heap = record {
    jobs = tree.new;
    heap = heap;
    wakeup_chan = [];
    is_started = false;
    max_delay = pos 0;
    calls = [];
  }

  -- SetMaxStartDelay
  unfoldable pub set_max_start_delay : ℤ → Scheduler → Scheduler
  set_max_start_delay d s = record s { max_delay = d }

  unfoldable pub wake_up : Scheduler → Scheduler
  wake_up s = record s { wakeup_chan = s.wakeup_chan ++ wakeup_num ∷ [] }

  -- The delay of a new job: a random number below a positive maxDelay.
  abbrev pub delay : ℤ → ℕ → ℕ
  delay max_delay r = if ltb_ℤ (pos 0) max_delay then r % pos_part max_delay else 0

  -- One round of the loop of AddJobs.
  unfoldable pub add_job : ℤ → ℕ → ℕ → Scheduler → Scheduler
  add_job now r a s =
      let job = set_intial_expiration_time (int64 (now +ℤ pos (delay s.max_delay r))) (s.heap a) in
      let heap = write a job s.heap in
      record s {
        heap = heap;
        jobs = tree.insert_no_replace (less_in heap) a s.jobs;
        calls = s.calls ++ started a ∷ [];
      }

  -- The loop of AddJobs; `random` gives the numbers of the generator in turn.
  unfoldable pub add_loop : ℤ → (ℕ → ℕ) → ℕ → List ℕ → Scheduler → Scheduler
  unfolding add_job
  add_loop now random i [] s = s
  add_loop now random i (a ∷ rest) s = add_loop now random (suc i) rest (add_job now (random i) a s)

  unfoldable pub add_jobs : ℤ → (ℕ → ℕ) → List ℕ → Scheduler → Scheduler
  unfolding add_loop wake_up
  add_jobs now random l s = wake_up (add_loop now random 0 l s)

  unfoldable pub remove_job : ℕ → Scheduler → Scheduler
  remove_job a s = record s { jobs = tree.delete (less_in s.heap) a s.jobs }

  unfoldable pub remove_loop : List ℕ → Scheduler → Scheduler
  unfolding remove_job
  remove_loop [] s = s
  remove_loop (a ∷ rest) s = remove_loop rest (remove_job a s)

  unfoldable pub remove_jobs : List ℕ → Scheduler → Scheduler
  unfolding remove_loop wake_up
  remove_jobs l s = wake_up (remove_loop l s)

  unfoldable pub update_loop : List ℕ → Scheduler → Scheduler
  update_loop [] s = s
  update_loop (a ∷ rest) s =
      let without = tree.delete (less_in s.heap) a s.jobs in
      update_loop rest (record s { jobs = tree.insert_no_replace (less_in s.heap) a without })

  unfoldable pub update_jobs : List ℕ → Scheduler → Scheduler
  unfolding update_loop wake_up
  update_jobs l s = wake_up (update_loop l s)

  -- The first loop of getReadyJobs, on fuel; the size of the tree is enough.
  unfoldable pub pop_ready : ℕ → ℤ → Store → tree.Tree → List ℕ × tree.Tree
  pop_ready zero now heap t = ([], t)
  pop_ready (suc n) now heap t =
      let (ready, t') = pop_ready n now heap (tree.delete_min t) in
      elim (tree.min t) [
        | none ↦ ([], t)
        | some a ↦ if ltb_ℤ (heap a).when now then (a ∷ ready, t') else ([], t)
      ]

  -- The second loop: a job with an interval is scheduled for its next time.
  unfoldable pub reschedule : List ℕ → Store → tree.Tree → Store × tree.Tree
  reschedule [] heap t = (heap, t)
  reschedule (a ∷ rest) heap t =
      let heap' = write a (update_expiration_time (heap a)) heap in
      let t' = tree.insert_no_replace (less_in heap') a t in
      elim (ltb_ℤ (pos 0) (heap a).interval) [
        | true ↦ reschedule rest heap' t'
        | false ↦ reschedule rest heap t
      ]

  -- The time to sleep: a tenth of a second when no job is left.
  unfoldable pub sleep_time : ℤ → Store → tree.Tree → ℤ
  sleep_time now heap t = elim (tree.min t) [
    | none ↦ pos 100000000
    | some a ↦ int64 ((heap a).when -ℤ now)
  ]

  -- getReadyJobs
  unfoldable pub get_ready_jobs : ℤ → Scheduler → ℤ × List ℕ × Scheduler
  unfolding pop_ready reschedule sleep_time
  get_ready_jobs now s =
      let (ready, t) = pop_ready (tree.len s.jobs) now s.heap s.jobs in
      let (heap, t') = reschedule ready s.heap t in
      (sleep_time now heap t', ready, record s { heap = heap; jobs = t' })

  -- executeJobs
  unfoldable pub execute_jobs : List ℕ → Scheduler → Scheduler
  execute_jobs [] s = s
  execute_jobs (a ∷ rest) s = execute_jobs rest (record s { calls = s.calls ++ called a ∷ [] })

  -- What the `select` of doJobs receives: the timer, or the head of the wakeup channel.
  pub data Wake : Type 0 where
    timer : Wake
    wakeup : Wake

  -- What is received from the wakeup channel: the flag says whether the loop goes on.
  abbrev pub receive : List ℕ → Scheduler → Scheduler × Bool
  receive [] s = (s, true)
  receive (v ∷ vs) s = (record s { wakeup_chan = vs }, if v == teardown_num then false else true)

  -- One round of doJobs: the flag says whether the loop goes on.
  unfoldable pub do_round : ℤ → Wake → Scheduler → Scheduler × Bool
  unfolding get_ready_jobs execute_jobs
  do_round now w s =
      let (_, ready, s₁) = get_ready_jobs now s in
      let s₂ = execute_jobs ready s₁ in
      elim w [ timer ↦ (s₂, true) | wakeup ↦ receive s₂.wakeup_chan s₂ ]

  -- Start: the flag says whether this call starts the loop.
  unfoldable pub start : Scheduler → Scheduler × Bool
  start s = if s.is_started then (s, false) else (record s { is_started = true }, true)

  -- AscendGreaterOrEqual(pivot, …): the calls of Stop for the jobs that are not before the pivot.
  stop_all : BaseJob → Store → List ℕ → List Call
  stop_all pivot heap [] = []
  stop_all pivot heap (a ∷ rest) =
      let later = stop_all pivot heap rest in
      if less (heap a) pivot then later else stopped a ∷ later

  -- Stop, after doJobs has ended: the jobs from the pivot on are stopped. The counter jobId grows.
  unfoldable pub stop : ℤ → Scheduler → Scheduler × ℤ
  unfolding stop_all new_job
  stop job_id s =
      let (pivot, job_id') = new_job none (negsuc 0) (pos 0) [] job_id in
      if s.is_started
      then (
        record s {
          is_started = false;
          wakeup_chan = s.wakeup_chan ++ teardown_num ∷ [];
          calls = s.calls ++ stop_all pivot s.heap (tree.items s.jobs);
        },
        job_id',
      )
      else (s, job_id)
