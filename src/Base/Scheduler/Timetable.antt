-- ===== src/Base/Scheduler/Timetable.antt =====
-- The scheduler of base/scheduler.go as a timetable: for each job its time, its interval and whether
-- it is scheduled, each operation being a function of these alone. The tree and the store refine it.
use descartes_legacy.Prelude.{
  ℕ, ◌≡◌, refl, ◌∙◌, ap, Bool, true, false, not, ◌&&◌, ◌||◌, if◌then◌else◌, Bool-cases, inl, inr,
  ◌==◌,
}
use descartes_legacy.Prelude.Int.{ℤ, pos, ◌+ℤ◌, int64, ltb_ℤ, eqb_ℤ}
use descartes_legacy.Base.Job.{BaseJob, update_expiration_time, set_intial_expiration_time}
use descartes_legacy.Base.Scheduler.{
  Store, Scheduler, write, Wake, delay, add_job, remove_job, get_ready_jobs, do_round, pop_ready,
}
use descartes_legacy.Base.Scheduler.Tree.{OrderedTree}
use descartes_legacy.Base.Scheduler.Due.{
  take_due, drop_due, is_due, pop_ready_lem, take_due-append-drop_due,
}
use descartes_legacy.Base.Scheduler.Invariant.{IsWell, add_job-IsWell, remove_job-items}
use descartes_legacy.Base.Scheduler.Invariant.Reschedule.{
  is_periodic, periodic, IsSorted-parts, get_ready_jobs-IsWell,
}
use descartes_legacy.Base.Scheduler.Members.{
  mem, mem-append, mem-perm, mem-without, mem-periodic, mem-due, Apart-of_not_mem, next_time,
  reschedule-heap, the_same,
}

pub record Entry : Type 0 where
  pub when : ℤ
  pub interval : ℤ
  pub active : Bool

abbrev pub entry_of : BaseJob → Bool → Entry
entry_of job active = record { when = job.when; interval = job.interval; active = active }

abbrev pub Timetable : Type 0
Timetable = ℕ → Entry

-- A job with no time gets the time at which it is added, and a delay.
abbrev pub added : ℤ → Entry → Entry
added now e = record {
  when = if eqb_ℤ e.when (pos 0) then now else e.when;
  interval = e.interval;
  active = true;
}

abbrev pub is_ready : ℤ → Entry → Bool
is_ready now e = e.active && ltb_ℤ e.when now

-- A due job is scheduled for its next time if it has an interval, and else no longer.
abbrev pub after_round : ℤ → Entry → Entry
after_round now e = record {
  when =
      if is_ready now e && ltb_ℤ (pos 0) e.interval then int64 (e.when +ℤ e.interval) else e.when;
  interval = e.interval;
  active = e.active && not (ltb_ℤ e.when now && not (ltb_ℤ (pos 0) e.interval));
}

entry_of-next_time :
    (now : ℤ) (heap : Store) (b : ℕ) (m : Bool)
    → entry_of
        (next_time heap (m && is_due now heap b) b)
        (m && is_due now heap b && is_periodic heap b || m && not (is_due now heap b))
      ≡ after_round now (entry_of (heap b) m)
unfolding update_expiration_time
entry_of-next_time now heap b false = refl
entry_of-next_time now heap b true = elim (Bool-cases (is_due now heap b)) [
  | inr d ↦ rw d refl
  | inl d ↦ elim (Bool-cases (is_periodic heap b)) [
    | inl p ↦ rw (d, p) refl
    | inr p ↦ rw (d, p) refl
  ]
]

module _ (tree : OrderedTree) where
  -- A call that the owner of the scheduler makes, or a round of its loop, with the time and the
  -- random number that it reads.
  pub data Op : Type 0 where
    add : ℤ → ℕ → ℕ → Op
    remove : ℕ → Op
    round : ℤ → Wake tree → Op

  abbrev pub entry : Scheduler tree → Timetable
  entry s b = entry_of (s.heap b) (mem b (tree.items s.jobs))

  unfoldable pub step : Op → Scheduler tree → Scheduler tree
  step (add now r a) s = add_job tree now r a s
  step (remove a) s = remove_job tree a s
  step (round now w) s = (do_round tree now w s).0

  unfoldable pub next : ℤ → Op → Timetable → Timetable
  next max_delay (add now r a) p b =
      if a == b then added (int64 (now +ℤ pos (delay tree max_delay r))) (p b) else p b
  next max_delay (remove a) p b = if a == b then record (p b) { active = false } else p b
  next max_delay (round now w) p b = after_round now (p b)

  -- A job is added only when it is not scheduled.
  abbrev pub Allows : Timetable → Op → Type 0
  Allows p (add now r a) = (p a).active ≡ false
  Allows p (remove a) = Unit
  Allows p (round now w) = Unit

  entry_of-set_intial :
      (t : ℤ) (job : BaseJob) (m : Bool)
      → entry_of (set_intial_expiration_time t job) true ≡ added t (entry_of job m)
  unfolding set_intial_expiration_time
  entry_of-set_intial t job m = elim (Bool-cases (eqb_ℤ job.when (pos 0))) [
    | inl e ↦ rw e refl
    | inr e ↦ rw e refl
  ]

  add_job-heap :
      (now : ℤ) (r a : ℕ) (s : Scheduler tree) (b : ℕ)
      → (add_job tree now r a s).heap b ≡ (
          if a == b
          then set_intial_expiration_time (int64 (now +ℤ pos (delay tree s.max_delay r))) (s.heap a)
          else s.heap b)
  unfolding add_job write
  add_job-heap now r a s b = refl

  pub entry-add :
      (now : ℤ) (r a : ℕ) (s : Scheduler tree) (b : ℕ)
      → IsWell tree s
      → mem a (tree.items s.jobs) ≡ false
      → entry (add_job tree now r a s) b ≡ next s.max_delay (add now r a) (entry s) b
  unfolding next
  entry-add now r a s b w fresh =
      let in_tree =
        mem-perm b
          (add_job-IsWell tree now r a s w (Apart-of_not_mem a (tree.items s.jobs) fresh)).1 in
      rw (in_tree, add_job-heap now r a s b)
        (elim (Bool-cases (a == b)) [
          | inl e ↦
              rw (e, the_same a b e)
                (entry_of-set_intial (int64 (now +ℤ pos (delay tree s.max_delay r))) (s.heap b)
                  (mem b (tree.items s.jobs)))
          | inr e ↦ rw e refl
        ])

  remove_job-heap : (a : ℕ) (s : Scheduler tree) → (remove_job tree a s).heap ≡ s.heap
  unfolding remove_job
  remove_job-heap a s = refl

  pub entry-remove :
      (a : ℕ) (s : Scheduler tree) (b : ℕ)
      → IsWell tree s
      → entry (remove_job tree a s) b ≡ next s.max_delay (remove a) (entry s) b
  unfolding next
  entry-remove a s b w =
      let in_tree =
        ap (mem b) (remove_job-items tree a s w) ∙ mem-without a b (tree.items s.jobs) in
      rw (in_tree, remove_job-heap a s)
        (elim (Bool-cases (a == b)) [ inl e ↦ rw e refl | inr e ↦ rw e refl ])

  get_ready_jobs-heap :
      (now : ℤ) (s : Scheduler tree) (b : ℕ)
      → IsWell tree s
      → (get_ready_jobs tree now s).2.heap b
        ≡ next_time s.heap (mem b (tree.items s.jobs) && is_due now s.heap b) b
  unfolding get_ready_jobs
  get_ready_jobs-heap now s b w =
      let l = tree.items s.jobs in
      let (r, d) = pop_ready_lem tree now s.heap s.jobs in
      let t = (pop_ready tree (tree.len s.jobs) now s.heap s.jobs).1 in
      let distinct =
        (IsSorted-parts s.heap (take_due now s.heap l) (drop_due now s.heap l)
          (rw (take_due-append-drop_due now s.heap l) w.sorted)).0 in
      rw r (
        rw (← (mem-due now s.heap b l w.sorted).0)
          (reschedule-heap tree (take_due now s.heap l) s.heap t b distinct))

  pub entry-ready :
      (now : ℤ) (s : Scheduler tree) (b : ℕ)
      → IsWell tree s
      → entry (get_ready_jobs tree now s).2 b ≡ after_round now (entry s b)
  entry-ready now s b w =
      let l = tree.items s.jobs in
      let (well, ready, perm) = get_ready_jobs-IsWell tree now s w in
      let (take, drop) = mem-due now s.heap b l w.sorted in
      let in_tree =
        mem-perm b perm
        ∙ mem-append b (periodic s.heap (take_due now s.heap l)) (drop_due now s.heap l) in
      rw
        (
          in_tree,
          get_ready_jobs-heap now s b w,
          mem-periodic s.heap b (take_due now s.heap l),
          take,
          drop,
        )
        (entry_of-next_time now s.heap b (mem b l))
