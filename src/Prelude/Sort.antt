-- ===== src/Prelude/Sort.antt =====
-- Go's sort.Strings, by insertion: a sorted list of texts is determined by what is in it.
use mathlib.Core.List.{Perm, Permᴰ, is_set}
use mathlib.Core.HLevel.{hedberg}
use mathlib.Core.List.Permᴰ.{nil, cons, swap, trans}
use mathlib.Core.Logic.{∥∥₁_elim}
use descartes_legacy.Prelude.{
  String, ◌≡◌, refl, ◌∙◌, ap, true, false, List, [], ◌∷◌, if◌then◌else◌, Bool-cases, inl, inr,
  str_eq, str_eq→eq, str_eq_refl, subst,
}
use descartes_legacy.Prelude.Order.{str_ltb, str_ltb_irrefl, str_ltb_trans, str_ltb_total}

abbrev pub insert_text : String → List String → List String
insert_text x [] = x ∷ []
insert_text x (y ∷ ys) = let rest = insert_text x ys in if str_ltb y x then y ∷ rest else x ∷ y ∷ ys

unfoldable pub sort_strings : List String → List String
sort_strings [] = []
sort_strings (x ∷ xs) = insert_text x (sort_strings xs)

-- Two texts are put in with the same result in either order.
asym : (x y : String) → str_ltb x y ≡ true → str_ltb y x ≡ false
asym x y h = elim (Bool-cases (str_ltb y x)) [
  | inr k ↦ k
  | inl k ↦ cc (str_ltb_trans x y x h k, str_ltb_irrefl x)
]

le_lt : (z y x : String) → str_ltb z y ≡ false → str_ltb z x ≡ true → str_ltb y x ≡ true
le_lt z y x h k = elim (Bool-cases (str_ltb y z)) [
  | inl c ↦ str_ltb_trans y z x c k
  | inr c ↦ rw (str_ltb_total y z c h) k
]

insert_text_comm :
    (x y : String) (l : List String)
    → insert_text x (insert_text y l) ≡ insert_text y (insert_text x l)
insert_text_comm x y [] = elim (Bool-cases (str_ltb x y)) [
  | inl h ↦ rw (h, asym x y h) refl
  | inr h ↦ elim (Bool-cases (str_ltb y x)) [
    | inl k ↦ rw (h, k) refl
    | inr k ↦ rw (h, k, str_ltb_total x y h k) refl
  ]
]
insert_text_comm x y (z ∷ l) = elim (Bool-cases (str_ltb z x)) [
  | inl zx ↦ elim (Bool-cases (str_ltb z y)) [
    | inl zy ↦ rw (zx, zy, zx) (ap (λ r. z ∷ r) (insert_text_comm x y l))
    | inr zy ↦ rw (zx, zy, le_lt z y x zy zx, zx) refl
  ]
  | inr zx ↦ elim (Bool-cases (str_ltb z y)) [
    | inl zy ↦ rw (zx, zy, zx, le_lt z x y zx zy) refl
    | inr zy ↦ elim (Bool-cases (str_ltb x y)) [
      | inl h ↦ rw (zx, zy, h, asym x y h) refl
      | inr h ↦ elim (Bool-cases (str_ltb y x)) [
        | inl k ↦ rw (zx, zy, h, k, zx) refl
        | inr k ↦ rw (zx, zy, h, k, str_ltb_total x y h k) refl
      ]
    ]
  ]
]

sort_strings-permᴰ : {xs ys : List String} → Permᴰ xs ys → sort_strings xs ≡ sort_strings ys
unfolding sort_strings
sort_strings-permᴰ nil = refl
sort_strings-permᴰ (cons e p) = rw (e, sort_strings-permᴰ p) refl
sort_strings-permᴰ (swap {a' = x} {b' = y} {l = l} e f) =
    rw (e, f) (insert_text_comm y x (sort_strings l))
sort_strings-permᴰ (trans p q) = sort_strings-permᴰ p ∙ sort_strings-permᴰ q

String_discrete : Discrete String
String_discrete s t = elim (Bool-cases (str_eq s t)) [
  | inl e ↦ yes (str_eq→eq s t e)
  | inr e ↦ no (λ p. cc (e, subst (λ x. str_eq s x ≡ true) p (str_eq_refl s)))
]

pub sort_strings-perm : {xs ys : List String} → Perm xs ys → sort_strings xs ≡ sort_strings ys
sort_strings-perm {xs} {ys} p =
    ∥∥₁_elim p (is_set (hedberg String_discrete) (sort_strings xs) (sort_strings ys))
      sort_strings-permᴰ
