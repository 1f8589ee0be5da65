-- ===== src/Base/Scheduler/Steps.antt =====
-- The rounds of the loop of base/scheduler.go, and each operation as one of the timetable.
use descartes_legacy.Prelude.{ℕ, ◌≡◌, refl, ◌∙◌, List, [], ◌∷◌, ◌++◌, map, append-nil, append_assoc}
use descartes_legacy.Prelude.Int.{ℤ}
use descartes_legacy.Base.Scheduler.{
  Scheduler, called, Wake, timer, wakeup, add_job, remove_job, get_ready_jobs, execute_jobs,
  do_round, receive,
}
use descartes_legacy.Base.Scheduler.Tree.{OrderedTree}
use descartes_legacy.Base.Scheduler.Invariant.{IsWell, add_job-IsWell, remove_job-IsWell}
use descartes_legacy.Base.Scheduler.Invariant.Reschedule.{get_ready_jobs-IsWell}
use descartes_legacy.Base.Scheduler.Members.{Apart-of_not_mem}
use descartes_legacy.Base.Scheduler.Timetable.{
  entry, Op, add, remove, round, step, next, Allows, after_round, entry-add, entry-remove,
  entry-ready,
}

module _ (tree : OrderedTree) where
  execute_jobs_lem :
      (l : List ℕ) (s : Scheduler tree)
      → execute_jobs tree l s ≡ record s { calls = s.calls ++ map called l }
  unfolding execute_jobs
  execute_jobs_lem [] s = rw (append-nil s.calls) refl
  execute_jobs_lem (a ∷ l) s =
      execute_jobs_lem l (record s { calls = s.calls ++ called a ∷ [] })
      ∙ rw (append_assoc s.calls (called a ∷ []) (map called l)) refl

  -- What a round leaves of the state after getReadyJobs.
  pub record RoundOf (s s' : Scheduler tree) (ready : List ℕ) : Type 0 where
    pub same_jobs : s'.jobs ≡ s.jobs
    pub same_heap : s'.heap ≡ s.heap
    pub same_delay : s'.max_delay ≡ s.max_delay
    pub calls : s'.calls ≡ s.calls ++ map called ready

  receive-RoundOf :
      (chan ready : List ℕ) (s s' : Scheduler tree)
      → s' ≡ record s { calls = s.calls ++ map called ready }
      → RoundOf s (receive tree chan s').0 ready
  receive-RoundOf [] ready s s' e = record {
    same_jobs = rw e refl;
    same_heap = rw e refl;
    same_delay = rw e refl;
    calls = rw e refl;
  }
  receive-RoundOf (v ∷ vs) ready s s' e = record {
    same_jobs = rw e refl;
    same_heap = rw e refl;
    same_delay = rw e refl;
    calls = rw e refl;
  }

  pub do_round-RoundOf :
      (now : ℤ) (w : Wake tree) (s : Scheduler tree)
      → RoundOf
          (get_ready_jobs tree now s).2
          (do_round tree now w s).0
          (get_ready_jobs tree now s).1
  unfolding do_round
  do_round-RoundOf now timer s =
      let (_, ready, s₁) = get_ready_jobs tree now s in
      receive-RoundOf [] ready s₁ (execute_jobs tree ready s₁) (execute_jobs_lem ready s₁)
  do_round-RoundOf now wakeup s =
      let (_, ready, s₁) = get_ready_jobs tree now s in
      let s₂ = execute_jobs tree ready s₁ in
      receive-RoundOf s₂.wakeup_chan ready s₁ s₂ (execute_jobs_lem ready s₁)

  entry-round :
      (now : ℤ) (w : Wake tree) (s : Scheduler tree) (b : ℕ)
      → IsWell tree s
      → entry tree (do_round tree now w s).0 b ≡ after_round now (entry tree s b)
  entry-round now w s b well =
      let r = do_round-RoundOf now w s in
      rw (r.same_jobs, r.same_heap) (entry-ready tree now s b well)

  pub step-IsWell :
      (op : Op tree) (s : Scheduler tree)
      → IsWell tree s
      → Allows tree (entry tree s) op
      → IsWell tree (step tree op s)
  unfolding step
  step-IsWell (add now r a) s w h =
      (add_job-IsWell tree now r a s w (Apart-of_not_mem a (tree.items s.jobs) h)).0
  step-IsWell (remove a) s w h = remove_job-IsWell tree a s w
  step-IsWell (round now v) s w h =
      let r = do_round-RoundOf now v s in
      let well = (get_ready_jobs-IsWell tree now s w).0 in
      record { sorted = rw (r.same_jobs, r.same_heap) well.sorted; ids = rw r.same_heap well.ids }

  pub step-entry :
      (op : Op tree) (s : Scheduler tree) (b : ℕ)
      → IsWell tree s
      → Allows tree (entry tree s) op
      → entry tree (step tree op s) b ≡ next tree s.max_delay op (entry tree s) b
  unfolding step next
  step-entry (add now r a) s b w h = entry-add tree now r a s b w h
  step-entry (remove a) s b w h = entry-remove tree a s b w
  step-entry (round now v) s b w h = entry-round now v s b w

  pub step-max_delay :
      (op : Op tree) (s : Scheduler tree) → (step tree op s).max_delay ≡ s.max_delay
  unfolding step add_job remove_job get_ready_jobs
  step-max_delay (add now r a) s = refl
  step-max_delay (remove a) s = refl
  step-max_delay (round now v) s = (do_round-RoundOf now v s).same_delay
