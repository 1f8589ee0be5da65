-- ===== src/Base/Scheduler/Tree.antt =====
-- The red-black tree of github.com/petar/GoLLRB that base/scheduler.go keeps its jobs in, by what
-- its operations do to the items in ascending order. An item is the address of a job; the order is
-- the one that the jobs have when the operation is called.
use descartes_legacy.Prelude.{
  ℕ, ◌≡◌, refl, Bool, true, ◌||◌, Option, none, some, List, [], ◌∷◌, length, if◌then◌else◌, All,
}

abbrev pub Order : Type 0
Order = ℕ → ℕ → Bool

abbrev pub insert_sorted : Order → ℕ → List ℕ → List ℕ
insert_sorted lt x [] = x ∷ []
insert_sorted lt x (y ∷ ys) = if lt x y then x ∷ y ∷ ys else y ∷ insert_sorted lt x ys

-- Without the first item that is neither before nor after `x`.
abbrev pub remove_equal : Order → ℕ → List ℕ → List ℕ
remove_equal lt x [] = []
remove_equal lt x (y ∷ ys) = if lt x y || lt y x then y ∷ remove_equal lt x ys else ys

-- Each item is before all later ones.
abbrev pub IsSorted : Order → List ℕ → Type 0
IsSorted lt [] = Unit {0}
IsSorted lt (x ∷ xs) = All (λ y. lt x y ≡ true) xs × IsSorted lt xs

abbrev pub head : List ℕ → Option ℕ
head [] = none
head (x ∷ xs) = some x

abbrev pub tail : List ℕ → List ℕ
tail [] = []
tail (x ∷ xs) = xs

pub record OrderedTree : Type 1 where
  pub Tree : Type 0
  pub new : Tree
  pub insert_no_replace : Order → ℕ → Tree → Tree
  pub delete : Order → ℕ → Tree → Tree
  pub delete_min : Tree → Tree
  pub min : Tree → Option ℕ
  pub len : Tree → ℕ
  pub items : Tree → List ℕ
  pub items-new : items new ≡ []
  pub items-insert :
      (lt : Order) (x : ℕ) (t : Tree)
      → IsSorted lt (items t)
      → items (insert_no_replace lt x t) ≡ insert_sorted lt x (items t)
  pub items-delete :
      (lt : Order) (x : ℕ) (t : Tree)
      → IsSorted lt (items t)
      → items (delete lt x t) ≡ remove_equal lt x (items t)
  pub items-delete_min : (t : Tree) → items (delete_min t) ≡ tail (items t)
  pub min_lem : (t : Tree) → min t ≡ head (items t)
  pub len_lem : (t : Tree) → len t ≡ length (items t)

-- The sorted list itself is such a tree.
abbrev pub sorted_list : OrderedTree
sorted_list = record {
  Tree = List ℕ;
  new = [];
  insert_no_replace = insert_sorted;
  delete = remove_equal;
  delete_min = tail;
  min = head;
  len = length;
  items = λ l. l;
  items-new = refl;
  items-insert = λ lt x t h. refl;
  items-delete = λ lt x t h. refl;
  items-delete_min = λ t. refl;
  min_lem = λ t. refl;
  len_lem = λ t. refl;
}
