-- ===== src/Services/Monitor/Known.antt =====
-- The table of the known partitions in services/kafka_topic_monitor.go.
use descartes_legacy.Prelude.{
  ◌≡◌, refl, sym, ◌∙◌, ap, String, Bool, true, false, ◌||◌, none, some, List, [], ◌∷◌,
  if◌then◌else◌, str_eq, str_eq→eq, str_eq_refl, arith, Bool-cases, Option-cases, inl, inr,
}
use descartes_legacy.Prelude.Int.{ℤ, eqb_ℤ}
use descartes_legacy.Prelude.Map.{has-insert, lookup, has, insert, lookup-insert}
use descartes_legacy.Services.Monitor.{Partitions, member, ids_of, is_known, with_topic, set_known}

pub has-with_topic :
    (t k : String) (m : Partitions) → has k m ≡ true → has k (with_topic t m) ≡ true
unfolding with_topic
has-with_topic t k m h = elim (Bool-cases (has t m)) [
  | inl c ↦ rw c h
  | inr c ↦ rw c (has-insert t k [] m ∙ ground (arith, h))
]

pub has-with_topic_same : (t : String) (m : Partitions) → has t (with_topic t m) ≡ true
unfolding with_topic
has-with_topic_same t m = elim (Bool-cases (has t m)) [
  | inl c ↦ rw c c
  | inr c ↦ rw c (has-insert t t [] m ∙ rw (str_eq_refl t) refl)
]

is_known-insert :
    (t k : String) (id : ℤ) (ids : List ℤ) (m : Partitions)
    → is_known k id (insert t ids m) ≡ (if str_eq t k then member id ids else is_known k id m)
unfolding is_known
is_known-insert t k id ids m =
    rw (lookup-insert t k ids m)
      (elim (Bool-cases (str_eq t k)) [ inl c ↦ rw c refl | inr c ↦ rw c refl ])

unknown : (k : String) (id : ℤ) (m : Partitions) → has k m ≡ false → is_known k id m ≡ false
unfolding is_known has
unknown k id m h = elim (Option-cases (lookup k m)) [
  | inl e ↦ rw e refl
  | inr (ids, e) ↦ absurd (some_is_had ids e)
]
  where
    some_is_had : (ids : List ℤ) → lookup k m ≡ some ids → ⊥
    some_is_had ids e = cc (sym (ap (λ o. elim o [ none ↦ false | some _ ↦ true ]) e) ∙ h)

pub is_known-with_topic :
    (t k : String) (id : ℤ) (m : Partitions)
    → is_known k id m ≡ true
    → is_known k id (with_topic t m) ≡ true
unfolding with_topic
is_known-with_topic t k id m h = elim (Bool-cases (has t m)) [
  | inl c ↦ rw c h
  | inr c ↦ rw c (
      is_known-insert t k id [] m ∙ elim (Bool-cases (str_eq t k)) [
        | inl e ↦ absurd (cc (h, ap (λ x. is_known x id m) (str_eq→eq t k e), unknown t id m c))
        | inr e ↦ rw e h
      ])
]

known_member :
    (t : String) (id : ℤ) (m : Partitions)
    → is_known t id m ≡ true
    → member id (ids_of (lookup t m)) ≡ true
unfolding is_known
known_member t id m h = h

or_true : (x y : Bool) → y ≡ true → (x || y) ≡ true
or_true true y h = refl
or_true false y h = h

pub is_known-set_known :
    (t k : String) (i id : ℤ) (m : Partitions)
    → is_known k id m ≡ true
    → is_known k id (set_known t i m) ≡ true
unfolding set_known
is_known-set_known t k i id m h =
    is_known-insert t k id (i ∷ ids_of (lookup t m)) m
    ∙ elim (Bool-cases (str_eq t k)) [ inl e ↦ rw e (later (str_eq→eq t k e)) | inr e ↦ rw e h ]
  where
    later : t ≡ k → (eqb_ℤ i id || member id (ids_of (lookup t m))) ≡ true
    later e =
        let tail = known_member t id m (ap (λ x. is_known x id m) e ∙ h) in
        or_true (eqb_ℤ i id) (member id (ids_of (lookup t m))) tail

pub set_known_lem : (t : String) (id : ℤ) (m : Partitions) → is_known t id (set_known t id m) ≡ true
unfolding set_known
set_known_lem t id m =
    is_known-insert t t id (id ∷ ids_of (lookup t m)) m ∙ rw (str_eq_refl t) (ground arith)
