-- ===== src/Base/Scheduler/Invariant/Reschedule.antt =====
-- getReadyJobs of base/scheduler.go: the due jobs come out, and the periodic ones go back in.
use mathlib.Core.List.{Perm, perm_middle}
use mathlib.Core.List.Perm
use descartes_legacy.Prelude.{
  ℕ, ◌≡◌, refl, ap, Bool, false, List, [], ◌∷◌, ◌++◌, arith, if◌then◌else◌, All, Bool-cases, inl,
  inr, ◌==◌,
}
use descartes_legacy.Prelude.Int.{ℤ, pos, ltb_ℤ}
use descartes_legacy.Base.Job.{BaseJob, update_expiration_time}
use descartes_legacy.Base.Scheduler.{
  Store, Scheduler, less_in, write, reschedule, pop_ready, get_ready_jobs,
}
use descartes_legacy.Base.Scheduler.Tree.{OrderedTree, Order, IsSorted, insert_sorted}
use descartes_legacy.Base.Scheduler.Due.{
  take_due, drop_due, take_due-append-drop_due, pop_ready_lem,
}
use descartes_legacy.Base.Scheduler.Invariant.{
  Apart, HasDistinctIds, All-insert_sorted, insert_sorted-perm, insert_sorted-IsSorted,
  write-IsSorted, write-HasDistinctIds, Apart-of_before, IsWell,
}

abbrev pub is_periodic : Store → ℕ → Bool
is_periodic heap a = ltb_ℤ (pos 0) (heap a).interval

-- The jobs of a list that have an interval.
abbrev pub periodic : Store → List ℕ → List ℕ
periodic heap [] = []
periodic heap (a ∷ l) = let rest = periodic heap l in if is_periodic heap a then a ∷ rest else rest

abbrev pub IsDistinct : List ℕ → Type 0
IsDistinct [] = Unit {0}
IsDistinct (a ∷ l) = Apart a l × IsDistinct l

interval-write :
    (heap : Store) (x a : ℕ)
    → (write x (update_expiration_time (heap x)) heap a).interval ≡ (heap a).interval
unfolding write update_expiration_time
interval-write heap x a = elim (Bool-cases (x == a)) [
  | inl c ↦ rw c (ap (λ y. (heap y).interval) (ground (arith, c)))
  | inr c ↦ rw c refl
]

periodic-write :
    (heap : Store) (x : ℕ) (l : List ℕ)
    → periodic (write x (update_expiration_time (heap x)) heap) l ≡ periodic heap l
periodic-write heap x [] = refl
periodic-write heap x (a ∷ l) = rw (interval-write heap x a, periodic-write heap x l) refl

id-update : (job : BaseJob) → (update_expiration_time job).id ≡ job.id
unfolding update_expiration_time
id-update job = refl

-- What the rescheduling of jobs that are not in the tree makes of the store and the tree.
record Rescheduled (tree : OrderedTree) (ready : List ℕ) (heap heap' : Store) (t t' : tree.Tree)
    : Type 0 where
  sorted : IsSorted (less_in heap') (tree.items t')
  ids : HasDistinctIds heap'
  kept : Perm (tree.items t') (periodic heap ready ++ tree.items t)

module _ (tree : OrderedTree) where
  apart_swap : (a r : ℕ) → (a == r) ≡ false → (r == a) ≡ false
  apart_swap a r h = ground (arith, h)

  Apart-after_insert :
      (lt : Order) (a : ℕ) (rs l : List ℕ)
      → Apart a rs
      → All (λ r. Apart r l) rs
      → All (λ r. Apart r (insert_sorted lt a l)) rs
  Apart-after_insert lt a [] l h k = tt
  Apart-after_insert lt a (r ∷ rs) l h k = (
    All-insert_sorted (λ y. (r == y) ≡ false) lt a l (apart_swap a r h.0) k.0,
    Apart-after_insert lt a rs l h.1 k.1,
  )

  reschedule-Rescheduled :
      (ready : List ℕ) (heap : Store) (t : tree.Tree)
      → IsDistinct ready
      → All (λ r. Apart r (tree.items t)) ready
      → HasDistinctIds heap
      → IsSorted (less_in heap) (tree.items t)
      → Rescheduled tree ready heap
          (reschedule tree ready heap t).0
          t
          (reschedule tree ready heap t).1
  unfolding reschedule
  reschedule-Rescheduled [] heap t d a ids h = record {
    sorted = h;
    ids = ids;
    kept = Perm.refl (tree.items t);
  }
  reschedule-Rescheduled (x ∷ ready) heap t d a ids h = elim (Bool-cases (is_periodic heap x)) [
    | inr c ↦
        let r = reschedule-Rescheduled ready heap t d.1 a.1 ids h in
        rw (c, reschedule) (record { sorted = r.sorted; ids = r.ids; kept = rw c r.kept })
    | inl c ↦
        let job = update_expiration_time (heap x) in
        let heap' = write x job heap in
        let ids' : HasDistinctIds heap' =
          write-HasDistinctIds heap x job (id-update (heap x)) ids in
        let h' : IsSorted (less_in heap') (tree.items t) =
          write-IsSorted heap x job (tree.items t) a.0 h in
        let t' = tree.insert_no_replace (less_in heap') x t in
        let e : tree.items t' ≡ insert_sorted (less_in heap') x (tree.items t) =
          tree.items-insert (less_in heap') x t h' in
        let r =
          reschedule-Rescheduled ready heap' t' d.1
            (rw e (Apart-after_insert (less_in heap') x ready (tree.items t) d.0 a.1)) ids'
            (rw e (insert_sorted-IsSorted heap' x (tree.items t) ids' a.0 h')) in
        rw (c, reschedule)
          (record {
            sorted = r.sorted;
            ids = r.ids;
            kept = rw c (
                Perm.trans r.kept (
                  rw (periodic-write heap x ready, e)
                    (Perm.trans
                      (Perm.append_left (periodic heap ready)
                        (insert_sorted-perm (less_in heap') x (tree.items t)))
                      (perm_middle (periodic heap ready) (tree.items t)))));
          })
  ]

-- The parts of a sorted list: the later ones are sorted, all are distinct, and no early one is late.
pub IsSorted-parts :
    (heap : Store) (xs ys : List ℕ)
    → IsSorted (less_in heap) (xs ++ ys)
    → IsDistinct xs × All (λ x. Apart x ys) xs × IsSorted (less_in heap) ys
IsSorted-parts heap [] ys h = (tt, tt, h)
IsSorted-parts heap (x ∷ xs) ys h =
    let (d, a, s) = IsSorted-parts heap xs ys h.1 in
    let before = Apart-of_before heap x (xs ++ ys) h.0 in
    (
      (All-left (λ y. (x == y) ≡ false) xs ys before, d),
      (All-right (λ y. (x == y) ≡ false) xs ys before, a),
      s,
    )
  where
    All-left : (P : ℕ → Type 0) (xs ys : List ℕ) → All P (xs ++ ys) → All P xs
    All-left P [] ys h = tt
    All-left P (x ∷ xs) ys h = (h.0, All-left P xs ys h.1)

    All-right : (P : ℕ → Type 0) (xs ys : List ℕ) → All P (xs ++ ys) → All P ys
    All-right P [] ys h = h
    All-right P (x ∷ xs) ys h = All-right P xs ys h.1

module _ (tree : OrderedTree) where
  -- getReadyJobs keeps the scheduler well formed, although it changes the times by which the tree
  -- is sorted; the jobs that it returns are the due ones, in their order; and the tree then holds
  -- the jobs that were not due and the returned ones that have an interval, each once.
  pub get_ready_jobs-IsWell :
      (now : ℤ) (s : Scheduler tree)
      → IsWell tree s
      → IsWell tree (get_ready_jobs tree now s).2
        × ((get_ready_jobs tree now s).1 ≡ take_due now s.heap (tree.items s.jobs))
        × Perm (tree.items (get_ready_jobs tree now s).2.jobs) (
            periodic s.heap (take_due now s.heap (tree.items s.jobs))
            ++ drop_due now s.heap (tree.items s.jobs))
  unfolding get_ready_jobs
  get_ready_jobs-IsWell now s w =
      let l = tree.items s.jobs in
      let (r, d) = pop_ready_lem tree now s.heap s.jobs in
      let (dist, apart, sorted) =
        IsSorted-parts s.heap (take_due now s.heap l) (drop_due now s.heap l)
          (rw (take_due-append-drop_due now s.heap l) w.sorted) in
      let t = (pop_ready tree (tree.len s.jobs) now s.heap s.jobs).1 in
      let x =
        reschedule-Rescheduled tree (take_due now s.heap l) s.heap t dist (rw d apart) w.ids
          (rw d sorted) in
      (record { sorted = rw r x.sorted; ids = rw r x.ids }, r, rw r (rw d at x.kept))
