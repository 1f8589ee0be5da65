-- ===== src/Base/Scheduler/Members.antt =====
-- Which jobs are in the lists that base/scheduler.go makes of its tree.
use mathlib.Core.List.{Perm, Permᴰ}
use mathlib.Core.List.Permᴰ.{nil, cons, swap, trans}
use mathlib.Core.Logic.{∥∥₁_elim}
use mathlib.Core.Bool.{Bool-set}
use descartes_legacy.Prelude.{
  ℕ, ◌≡◌, refl, sym, ◌∙◌, ap, Bool, true, false, not, ◌&&◌, ◌||◌, List, [], ◌∷◌, ◌++◌, arith,
  if◌then◌else◌, All, Bool-cases, inl, inr, ◌==◌,
}
use descartes_legacy.Prelude.Int.{ℤ}
use descartes_legacy.Base.Job.{BaseJob, update_expiration_time}
use descartes_legacy.Base.Scheduler.{Store, less_in, write, reschedule}
use descartes_legacy.Base.Scheduler.Tree.{OrderedTree, IsSorted}
use descartes_legacy.Base.Scheduler.Due.{
  is_due, take_due, drop_due, take_due-append-drop_due, take_due-due, drop_due-not_due,
}
use descartes_legacy.Base.Scheduler.Invariant.{Apart, without}
use descartes_legacy.Base.Scheduler.Invariant.Reschedule.{is_periodic, periodic, IsDistinct}

abbrev pub mem : ℕ → List ℕ → Bool
mem b [] = false
mem b (a ∷ l) = (a == b) || mem b l

pub mem-append : (b : ℕ) (xs ys : List ℕ) → mem b (xs ++ ys) ≡ (mem b xs || mem b ys)
mem-append b [] ys = refl
mem-append b (x ∷ xs) ys = ground (arith, mem-append b xs ys)

or_swap : (x y z : Bool) → (x || (y || z)) ≡ (y || (x || z))
or_swap true y z = ground arith
or_swap false y z = refl

mem-permᴰ : (b : ℕ) {xs ys : List ℕ} → Permᴰ xs ys → mem b xs ≡ mem b ys
mem-permᴰ b nil = refl
mem-permᴰ b (cons e p) = rw (e, mem-permᴰ b p) refl
mem-permᴰ b (swap {a = x} {b = y} {a' = x'} {b' = y'} {l = l} e f) =
    rw (e, f) (or_swap (y' == b) (x' == b) (mem b l))
mem-permᴰ b (trans p q) = mem-permᴰ b p ∙ mem-permᴰ b q

pub mem-perm : (b : ℕ) {xs ys : List ℕ} → Perm xs ys → mem b xs ≡ mem b ys
mem-perm b {xs} {ys} p = ∥∥₁_elim p (Bool-set (mem b xs) (mem b ys)) (mem-permᴰ b)

pub mem-without : (a b : ℕ) (l : List ℕ) → mem b (without a l) ≡ (not (a == b) && mem b l)
mem-without a b [] = ground arith
mem-without a b (x ∷ l) = ground (arith, mem-without a b l)

pub Apart-of_not_mem : (a : ℕ) (l : List ℕ) → mem a l ≡ false → Apart a l
Apart-of_not_mem a [] h = tt
Apart-of_not_mem a (x ∷ l) h = (ground (arith, h), Apart-of_not_mem a l (ground (arith, h)))

pub not_mem_of_Apart : (a : ℕ) (l : List ℕ) → Apart a l → mem a l ≡ false
not_mem_of_Apart a [] h = refl
not_mem_of_Apart a (x ∷ l) h = ground (arith, h.0, not_mem_of_Apart a l h.1)

pub the_same : (a b : ℕ) → (a == b) ≡ true → a ≡ b
the_same a b e = ground (arith, e)

-- The test `p` of an item that is `b` is that of `b`.
same_test : (p : ℕ → Bool) (a b : ℕ) → ((a == b) && p b) ≡ ((a == b) && p a)
same_test p a b = elim (Bool-cases (a == b)) [
  | inl e ↦ rw e (ap p (sym (the_same a b e)))
  | inr e ↦ rw e refl
]

mem-kept :
    (p : ℕ → Bool) (a b : ℕ) (l rest : List ℕ)
    → mem b rest ≡ (mem b l && p b)
    → mem b (if p a then a ∷ rest else rest) ≡ (mem b (a ∷ l) && p b)
mem-kept p a b l rest h = elim (Bool-cases (p a)) [
  | inl c ↦ rw c (rw h (choice true (a == b) (mem b l) (p b) (same_as a b p c)))
  | inr c ↦ rw c (rw h (choice false (a == b) (mem b l) (p b) (same_as a b p c)))
]
  where
    same_as : {k : Bool} (a b : ℕ) (p : ℕ → Bool) → p a ≡ k → ((a == b) && p b) ≡ ((a == b) && k)
    same_as a b p c = rw (← c) (same_test p a b)

    choice :
        (k x m q : Bool)
        → (x && q) ≡ (x && k)
        → (if k then x || m && q else m && q) ≡ ((x || m) && q)
    choice true true m q h = sym h
    choice true false m q h = refl
    choice false true m true h = cc h
    choice false true m false h = ground arith
    choice false false m q h = refl

pub mem-periodic :
    (heap : Store) (b : ℕ) (l : List ℕ) → mem b (periodic heap l) ≡ (mem b l && is_periodic heap b)
mem-periodic heap b [] = refl
mem-periodic heap b (a ∷ l) =
    mem-kept (is_periodic heap) a b l (periodic heap l) (mem-periodic heap b l)

-- The members of two parts that a test tells apart.
mem-left :
    (p : ℕ → Bool) (b : ℕ) (xs : List ℕ) → All (λ a. p a ≡ true) xs → mem b xs ≡ (mem b xs && p b)
mem-left p b [] h = refl
mem-left p b (x ∷ xs) h =
    choice (x == b) (mem b xs) (p b) (same_test p x b ∙ rw h.0 refl) (mem-left p b xs h.1)
  where
    choice : (x m q : Bool) → (x && q) ≡ (x && true) → m ≡ (m && q) → (x || m) ≡ ((x || m) && q)
    choice true m q h k = sym h
    choice false m q h k = k

mem-right :
    (p : ℕ → Bool) (b : ℕ) (ys : List ℕ) → All (λ a. p a ≡ false) ys → (mem b ys && p b) ≡ false
mem-right p b [] h = refl
mem-right p b (y ∷ ys) h =
    choice (y == b) (mem b ys) (p b) (same_test p y b ∙ rw h.0 refl) (mem-right p b ys h.1)
  where
    choice : (x m q : Bool) → (x && q) ≡ (x && false) → (m && q) ≡ false → ((x || m) && q) ≡ false
    choice true m q h k = h
    choice false m q h k = k

-- Of a sorted tree the due jobs are taken, and the others stay.
pub mem-due :
    (now : ℤ) (heap : Store) (b : ℕ) (l : List ℕ)
    → IsSorted (less_in heap) l
    → (mem b (take_due now heap l) ≡ (mem b l && is_due now heap b))
      × (mem b (drop_due now heap l) ≡ (mem b l && not (is_due now heap b)))
mem-due now heap b l h =
    let all = ap (mem b) (take_due-append-drop_due now heap l) in
    let whole = sym (mem-append b (take_due now heap l) (drop_due now heap l)) ∙ all in
    let left = mem-left (is_due now heap) b (take_due now heap l) (take_due-due now heap l) in
    let right =
      mem-right (is_due now heap) b (drop_due now heap l) (drop_due-not_due now heap l h) in
    rw (← whole) (
      parts (mem b (take_due now heap l)) (mem b (drop_due now heap l)) (is_due now heap b) left
        right)
  where
    parts :
        (x y q : Bool)
        → x ≡ (x && q)
        → (y && q) ≡ false
        → (x ≡ ((x || y) && q)) × (y ≡ ((x || y) && not q))
    parts true true true h k = cc k
    parts true false true h k = (refl, refl)
    parts true y false h k = cc h
    parts false true true h k = cc k
    parts false false true h k = (refl, refl)
    parts false true false h k = (refl, refl)
    parts false false false h k = (refl, refl)

pub write_same : (a : ℕ) (job : BaseJob) (heap : Store) → write a job heap a ≡ job
unfolding write
write_same a job heap = ground arith

pub write_other :
    (a b : ℕ) (job : BaseJob) (heap : Store) → (a == b) ≡ false → write a job heap b ≡ heap b
unfolding write
write_other a b job heap n = rw n refl

never {ℓ} : {A : Type ℓ} (m : Bool) (x y : A) → (if m && false then x else y) ≡ y
never true x y = refl
never false x y = refl

-- A job of a store after the second loop of getReadyJobs went over `ready`.
abbrev pub next_time : Store → Bool → ℕ → BaseJob
next_time heap ready b =
    if ready && is_periodic heap b then update_expiration_time (heap b) else heap b

module _ (tree : OrderedTree) where
  -- The second loop of getReadyJobs writes the new time of each periodic job of the list.
  pub reschedule-heap :
      (ready : List ℕ) (heap : Store) (t : tree.Tree) (b : ℕ)
      → IsDistinct ready
      → (reschedule tree ready heap t).0 b ≡ next_time heap (mem b ready) b
  unfolding reschedule
  reschedule-heap [] heap t b d = refl
  reschedule-heap (a ∷ ready) heap t b d = elim (Bool-cases (is_periodic heap a)) [
    | inr c ↦
        rw (c, reschedule) (reschedule-heap ready heap t b d.1 ∙ skipped heap a b (mem b ready) c)
    | inl c ↦
        let heap' = write a (update_expiration_time (heap a)) heap in
        let t' = tree.insert_no_replace (less_in heap') a t in
        rw (c, reschedule) (reschedule-heap ready heap' t' b d.1 ∙ written heap a b ready d.0 c)
  ]
    where
      skipped :
          (heap : Store) (a b : ℕ) (m : Bool)
          → is_periodic heap a ≡ false
          → next_time heap m b ≡ next_time heap ((a == b) || m) b
      skipped heap a b m c = elim (Bool-cases (a == b)) [
        | inr n ↦ rw n refl
        | inl e ↦ rw (e, ← the_same a b e, c) (never m (update_expiration_time (heap a)) (heap a))
      ]

      written :
          (heap : Store) (a b : ℕ) (ready : List ℕ)
          → Apart a ready
          → is_periodic heap a ≡ true
          → next_time (write a (update_expiration_time (heap a)) heap) (mem b ready) b
            ≡ next_time heap ((a == b) || mem b ready) b
      written heap a b ready apart c = elim (Bool-cases (a == b)) [
        | inr n ↦ rw (n, write_other a b (update_expiration_time (heap a)) heap n) refl
        | inl e ↦
            rw (e, ← the_same a b e, not_mem_of_Apart a ready apart, c)
              (write_same a (update_expiration_time (heap a)) heap)
      ]
