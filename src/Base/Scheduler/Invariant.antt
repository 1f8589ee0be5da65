-- ===== src/Base/Scheduler/Invariant.antt =====
-- The invariant of the scheduler of base/scheduler.go: the tree is sorted by the order that its
-- jobs have now, though their times change. Every operation keeps it.
pub mod Reschedule
use mathlib.Core.List.{Perm}
use mathlib.Core.List.Perm
use descartes_legacy.Prelude.{
  ℕ, zero, suc, ◌≡◌, ◌≢◌, refl, sym, ◌∙◌, ap, Bool, true, false, ◌||◌, Option, none, some, List, [],
  ◌∷◌, ◌++◌, arith, if◌then◌else◌, All, All-map, Bool-cases, inl, inr, ◌==◌, subst,
}
use descartes_legacy.Prelude.Int.{ℤ, pos, ◌+ℤ◌, int64}
use descartes_legacy.Base.Job.{BaseJob, less, set_intial_expiration_time}
use descartes_legacy.Base.Job.Less.{less_strict_order, less_total}
use descartes_legacy.Base.Scheduler.{Store, Scheduler, less_in, write, remove_job, add_job, delay}
use descartes_legacy.Base.Scheduler.Tree.{OrderedTree, Order, IsSorted, insert_sorted, remove_equal}

-- The address is none of the list.
abbrev pub Apart : ℕ → List ℕ → Type 0
Apart x l = All (λ y. (x == y) ≡ false) l

-- Different jobs have different ids.
abbrev pub HasDistinctIds : Store → Type 0
HasDistinctIds heap = (a b : ℕ) → (a == b) ≡ false → (heap a).id ≢ (heap b).id

pub All-insert_sorted {ℓ} :
    (P : ℕ → Type ℓ) (lt : Order) (x : ℕ) (l : List ℕ)
    → P x
    → All P l
    → All P (insert_sorted lt x l)
All-insert_sorted P lt x [] p h = (p, tt)
All-insert_sorted P lt x (y ∷ ys) p h = elim (Bool-cases (lt x y)) [
  | inl c ↦ rw c (p, h)
  | inr c ↦ rw c (h.0, All-insert_sorted P lt x ys p h.1)
]

pub insert_sorted-perm : (lt : Order) (x : ℕ) (l : List ℕ) → Perm (insert_sorted lt x l) (x ∷ l)
insert_sorted-perm lt x [] = Perm.refl (x ∷ [])
insert_sorted-perm lt x (y ∷ ys) = elim (Bool-cases (lt x y)) [
  | inl c ↦ rw c (Perm.refl (x ∷ y ∷ ys))
  | inr c ↦ rw c (Perm.trans (Perm.cons y (insert_sorted-perm lt x ys)) (Perm.swap x y ys))
]

less_in_trans :
    (heap : Store) (a b c : ℕ)
    → less_in heap a b ≡ true
    → less_in heap b c ≡ true
    → less_in heap a c ≡ true
less_in_trans heap a b c = (less_strict_order (heap a) (heap b) (heap c)).1

pub less_in_irrefl : (heap : Store) (a : ℕ) → less_in heap a a ≡ false
less_in_irrefl heap a = (less_strict_order (heap a) (heap a) (heap a)).0

before_all :
    (heap : Store) (x y : ℕ) (l : List ℕ)
    → less_in heap x y ≡ true
    → All (λ z. less_in heap y z ≡ true) l
    → All (λ z. less_in heap x z ≡ true) l
before_all heap x y l h = All-map (λ z k. less_in_trans heap x y z h k) l

pub insert_sorted-IsSorted :
    (heap : Store) (x : ℕ) (l : List ℕ)
    → HasDistinctIds heap
    → Apart x l
    → IsSorted (less_in heap) l
    → IsSorted (less_in heap) (insert_sorted (less_in heap) x l)
insert_sorted-IsSorted heap x [] ids a h = (tt, tt)
insert_sorted-IsSorted heap x (y ∷ ys) ids a h = elim (Bool-cases (less_in heap x y)) [
  | inl c ↦ rw c ((c, before_all heap x y ys c h.0), h)
  | inr c ↦ rw c (
    All-insert_sorted (λ z. less_in heap y z ≡ true) (less_in heap) x ys
        (less_total (heap x) (heap y) (ids x y a.0) c) h.0,
    insert_sorted-IsSorted heap x ys ids a.1 h.1,
  )
]

pub All-remove_equal {ℓ} :
    (P : ℕ → Type ℓ) (lt : Order) (x : ℕ) (l : List ℕ) → All P l → All P (remove_equal lt x l)
All-remove_equal P lt x [] h = tt
All-remove_equal P lt x (y ∷ ys) h = elim (Bool-cases (lt x y || lt y x)) [
  | inl c ↦ rw c (h.0, All-remove_equal P lt x ys h.1)
  | inr c ↦ rw c h.1
]

pub remove_equal-IsSorted :
    (lt : Order) (x : ℕ) (l : List ℕ) → IsSorted lt l → IsSorted lt (remove_equal lt x l)
remove_equal-IsSorted lt x [] h = tt
remove_equal-IsSorted lt x (y ∷ ys) h = elim (Bool-cases (lt x y || lt y x)) [
  | inl c ↦
      rw c (All-remove_equal (λ z. lt y z ≡ true) lt x ys h.0, remove_equal-IsSorted lt x ys h.1)
  | inr c ↦ rw c h.1
]

-- A write to a job that is not in the list leaves the list sorted.
pub write-IsSorted :
    (heap : Store) (x : ℕ) (job : BaseJob) (l : List ℕ)
    → Apart x l
    → IsSorted (less_in heap) l
    → IsSorted (less_in (write x job heap)) l
unfolding write
write-IsSorted heap x job [] a h = tt
write-IsSorted heap x job (y ∷ ys) a h = (same ys a.1 h.0, write-IsSorted heap x job ys a.1 h.1)
  where
    same :
        (zs : List ℕ)
        → Apart x zs
        → All (λ z. less_in heap y z ≡ true) zs
        → All (λ z. less_in (write x job heap) y z ≡ true) zs
    same [] b k = tt
    same (z ∷ zs) b k = (rw (a.0, b.0) k.0, same zs b.1 k.1)

id-write :
    (heap : Store) (x a : ℕ) (job : BaseJob)
    → job.id ≡ (heap x).id
    → (write x job heap a).id ≡ (heap a).id
unfolding write
id-write heap x a job e = elim (Bool-cases (x == a)) [
  | inl c ↦ rw c (e ∙ ap (λ y. (heap y).id) (ground (arith, c)))
  | inr c ↦ rw c refl
]

pub write-HasDistinctIds :
    (heap : Store) (x : ℕ) (job : BaseJob)
    → job.id ≡ (heap x).id
    → HasDistinctIds heap
    → HasDistinctIds (write x job heap)
write-HasDistinctIds heap x job e ids a b n h =
    ids a b n (sym (id-write heap x a job e) ∙ h ∙ id-write heap x b job e)

-- The list without an address.
abbrev pub without : ℕ → List ℕ → List ℕ
without a [] = []
without a (y ∷ ys) = let rest = without a ys in if a == y then rest else y ∷ rest

without-Apart : (a : ℕ) (l : List ℕ) → Apart a l → without a l ≡ l
without-Apart a [] h = refl
without-Apart a (y ∷ ys) h = rw h.0 (ap (λ r. y ∷ r) (without-Apart a ys h.1))

-- A job that is before others is none of them.
pub Apart-of_before :
    (heap : Store) (a : ℕ) (l : List ℕ) → All (λ z. less_in heap a z ≡ true) l → Apart a l
Apart-of_before heap a [] h = tt
Apart-of_before heap a (z ∷ l) h = (differs, Apart-of_before heap a l h.1)
  where
    differs : (a == z) ≡ false
    differs = elim (Bool-cases (a == z)) [
      | inr c ↦ c
      | inl c ↦
          let e : a ≡ z = ground (arith, c) in
          cc (subst (λ x. less_in heap a x ≡ true) (sym e) h.0, less_in_irrefl heap a)
    ]

-- Of two different jobs one is before the other.
apart_compare :
    (heap : Store) (a y : ℕ)
    → HasDistinctIds heap
    → (a == y) ≡ false
    → (less_in heap a y || less_in heap y a) ≡ true
apart_compare heap a y ids c = elim (Bool-cases (less_in heap a y)) [
  | inl h ↦ rw h refl
  | inr h ↦ rw (h, less_total (heap a) (heap y) (ids a y c) h) refl
]

module _ (tree : OrderedTree) where
  pub record IsWell (s : Scheduler tree) : Type 0 where
    pub sorted : IsSorted (less_in s.heap) (tree.items s.jobs)
    pub ids : HasDistinctIds s.heap

  id-set_intial : (when : ℤ) (job : BaseJob) → (set_intial_expiration_time when job).id ≡ job.id
  unfolding set_intial_expiration_time
  id-set_intial when job = ground arith

  -- The store and the tree after a job was added.
  abbrev pub heap_with : ℤ → ℕ → ℕ → Scheduler tree → Store
  heap_with now r a s =
      write a
        (set_intial_expiration_time (int64 (now +ℤ pos (delay tree s.max_delay r))) (s.heap a))
        s.heap

  heap_with-ids :
      (now : ℤ) (r a : ℕ) (s : Scheduler tree)
      → HasDistinctIds s.heap
      → HasDistinctIds (heap_with now r a s)
  heap_with-ids now r a s =
      write-HasDistinctIds s.heap a
        (set_intial_expiration_time (int64 (now +ℤ pos (delay tree s.max_delay r))) (s.heap a))
        (id-set_intial (int64 (now +ℤ pos (delay tree s.max_delay r))) (s.heap a))

  pub id-heap_with :
      (now : ℤ) (r a b : ℕ) (s : Scheduler tree) → (heap_with now r a s b).id ≡ (s.heap b).id
  id-heap_with now r a b s =
      id-write s.heap a b
        (set_intial_expiration_time (int64 (now +ℤ pos (delay tree s.max_delay r))) (s.heap a))
        (id-set_intial (int64 (now +ℤ pos (delay tree s.max_delay r))) (s.heap a))

  heap_with-IsSorted :
      (now : ℤ) (r a : ℕ) (s : Scheduler tree)
      → IsWell s
      → Apart a (tree.items s.jobs)
      → IsSorted (less_in (heap_with now r a s)) (tree.items s.jobs)
  heap_with-IsSorted now r a s w fresh =
      write-IsSorted s.heap a
        (set_intial_expiration_time (int64 (now +ℤ pos (delay tree s.max_delay r))) (s.heap a))
        (tree.items s.jobs) fresh w.sorted

  pub add_job-items :
      (now : ℤ) (r a : ℕ) (s : Scheduler tree)
      → IsWell s
      → Apart a (tree.items s.jobs)
      → tree.items (add_job tree now r a s).jobs
        ≡ insert_sorted (less_in (heap_with now r a s)) a (tree.items s.jobs)
  unfolding add_job
  add_job-items now r a s w fresh =
      tree.items-insert (less_in (heap_with now r a s)) a s.jobs
        (heap_with-IsSorted now r a s w fresh)

  -- A job that is not scheduled yet can be added at any time, with any delay: the tree stays
  -- sorted, and holds that job and those it held before.
  pub add_job-IsWell :
      (now : ℤ) (r a : ℕ) (s : Scheduler tree)
      → IsWell s
      → Apart a (tree.items s.jobs)
      → IsWell (add_job tree now r a s)
        × Perm (tree.items (add_job tree now r a s).jobs) (a ∷ tree.items s.jobs)
  unfolding add_job
  add_job-IsWell now r a s w fresh =
      let heap = heap_with now r a s in
      let e = add_job-items now r a s w fresh in
      let ids : HasDistinctIds heap = heap_with-ids now r a s w.ids in
      (
        record {
          sorted = rw e (
              insert_sorted-IsSorted heap a (tree.items s.jobs) ids fresh
                (heap_with-IsSorted now r a s w fresh));
          ids = ids;
        },
        rw e (insert_sorted-perm (less_in heap) a (tree.items s.jobs)),
      )

  pub remove_job-IsWell : (a : ℕ) (s : Scheduler tree) → IsWell s → IsWell (remove_job tree a s)
  unfolding remove_job
  remove_job-IsWell a s w = record {
    sorted =
        rw (tree.items-delete (less_in s.heap) a s.jobs w.sorted)
          (remove_equal-IsSorted (less_in s.heap) a (tree.items s.jobs) w.sorted);
    ids = w.ids;
  }

  -- In a sorted list the removed job is gone, and the others stay in their order.
  remove_equal-without :
      (heap : Store) (a : ℕ) (l : List ℕ)
      → HasDistinctIds heap
      → IsSorted (less_in heap) l
      → remove_equal (less_in heap) a l ≡ without a l
  remove_equal-without heap a [] ids h = refl
  remove_equal-without heap a (y ∷ ys) ids h = elim (Bool-cases (a == y)) [
    | inl c ↦
        let e : a ≡ y = ground (arith, c) in
        rw (c, ← e, less_in_irrefl heap a)
          (sym (
            without-Apart a ys (
              Apart-of_before heap a ys
                (subst (λ x. All (λ z. less_in heap x z ≡ true) ys) (sym e) h.0))))
    | inr c ↦
        rw (c, apart_compare heap a y ids c)
          (ap (λ r. y ∷ r) (remove_equal-without heap a ys ids h.1))
  ]

  -- From a well-formed scheduler the removal of a job takes exactly this job out of the tree.
  pub remove_job-items :
      (a : ℕ) (s : Scheduler tree)
      → IsWell s
      → tree.items (remove_job tree a s).jobs ≡ without a (tree.items s.jobs)
  unfolding remove_job
  remove_job-items a s w =
      tree.items-delete (less_in s.heap) a s.jobs w.sorted
      ∙ remove_equal-without s.heap a (tree.items s.jobs) w.ids w.sorted
