-- ===== src/Base/Scheduler/Due.antt =====
-- Which jobs getReadyJobs of base/scheduler.go takes out of the tree.
use descartes_legacy.Prelude.{
  ℕ, zero, suc, ◌≤◌, ◌≡◌, refl, ◌∙◌, ap, Bool, true, false, List, [], ◌∷◌, ◌++◌, arith,
  if◌then◌else◌, length, All, Bool-cases, inl, inr,
}
use descartes_legacy.Prelude.Int.{ℤ, ltb_ℤ}
use descartes_legacy.Base.Job.{less}
use descartes_legacy.Base.Scheduler.{Store, less_in, pop_ready}
use descartes_legacy.Base.Scheduler.Tree.{OrderedTree, IsSorted, head, tail}

abbrev pub is_due : ℤ → Store → ℕ → Bool
is_due now heap a = ltb_ℤ (heap a).when now

-- The longest beginning of due jobs, and what follows it.
abbrev pub take_due : ℤ → Store → List ℕ → List ℕ
take_due now heap [] = []
take_due now heap (a ∷ l) =
    let rest = take_due now heap l in if is_due now heap a then a ∷ rest else []

abbrev pub drop_due : ℤ → Store → List ℕ → List ℕ
drop_due now heap [] = []
drop_due now heap (a ∷ l) =
    let rest = drop_due now heap l in if is_due now heap a then rest else a ∷ l

pub take_due-append-drop_due :
    (now : ℤ) (heap : Store) (l : List ℕ) → take_due now heap l ++ drop_due now heap l ≡ l
take_due-append-drop_due now heap [] = refl
take_due-append-drop_due now heap (a ∷ l) = elim (Bool-cases (is_due now heap a)) [
  | inl d ↦ rw d (ap (λ r. a ∷ r) (take_due-append-drop_due now heap l))
  | inr d ↦ rw d
]

pub take_due-due :
    (now : ℤ) (heap : Store) (l : List ℕ)
    → All (λ a. is_due now heap a ≡ true) (take_due now heap l)
take_due-due now heap [] = tt
take_due-due now heap (a ∷ l) = elim (Bool-cases (is_due now heap a)) [
  | inl d ↦ rw d (d, take_due-due now heap l)
  | inr d ↦ rw d tt
]

-- A job that is after another expires no earlier.
less-not_due :
    (now : ℤ) (heap : Store) (a b : ℕ)
    → less_in heap a b ≡ true
    → is_due now heap a ≡ false
    → is_due now heap b ≡ false
unfolding less
less-not_due now heap a b h d = ground arith

later_not_due :
    (now : ℤ) (heap : Store) (a : ℕ) (l : List ℕ)
    → All (λ b. less_in heap a b ≡ true) l
    → is_due now heap a ≡ false
    → All (λ b. is_due now heap b ≡ false) l
later_not_due now heap a [] h d = tt
later_not_due now heap a (b ∷ l) h d =
    (less-not_due now heap a b h.0 d, later_not_due now heap a l h.1 d)

-- In a sorted list no job behind the due beginning is due.
pub drop_due-not_due :
    (now : ℤ) (heap : Store) (l : List ℕ)
    → IsSorted (less_in heap) l
    → All (λ b. is_due now heap b ≡ false) (drop_due now heap l)
drop_due-not_due now heap [] h = tt
drop_due-not_due now heap (a ∷ l) h = elim (Bool-cases (is_due now heap a)) [
  | inl d ↦ rw d (drop_due-not_due now heap l h.1)
  | inr d ↦ rw d (d, later_not_due now heap a l h.0 d)
]

module _ (tree : OrderedTree) where
  pop_ready_at :
      (n : ℕ) (now : ℤ) (heap : Store) (t : tree.Tree) (l : List ℕ)
      → tree.items t ≡ l
      → length l ≤ n
      → ((pop_ready tree n now heap t).0 ≡ take_due now heap l)
        × (tree.items (pop_ready tree n now heap t).1 ≡ drop_due now heap l)
  unfolding pop_ready
  pop_ready_at zero now heap t [] e h = (refl, e)
  pop_ready_at zero now heap t (a ∷ l) e h = absurd (omega arith)
  pop_ready_at (suc n) now heap t [] e h = rw (tree.min_lem t, pop_ready) (rw e (refl, e))
  pop_ready_at (suc n) now heap t (a ∷ l) e h =
      let (r, s) =
        pop_ready_at n now heap (tree.delete_min t) l (tree.items-delete_min t ∙ ap tail e)
          (omega arith) in
      rw (tree.min_lem t ∙ ap head e, pop_ready)
        (elim (Bool-cases (is_due now heap a)) [
          | inl d ↦ rw d (ap (λ x. a ∷ x) r, s)
          | inr d ↦ rw d (refl, e)
        ])

  -- With the size of the tree as fuel the first loop takes the due jobs out, and only those.
  pub pop_ready_lem :
      (now : ℤ) (heap : Store) (t : tree.Tree)
      → ((pop_ready tree (tree.len t) now heap t).0 ≡ take_due now heap (tree.items t))
        × (tree.items (pop_ready tree (tree.len t) now heap t).1 ≡ drop_due now heap (tree.items t))
  pop_ready_lem now heap t =
      pop_ready_at (tree.len t) now heap t (tree.items t) refl (omega (arith, tree.len_lem t))
