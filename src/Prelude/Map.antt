-- ===== src/Prelude/Map.antt =====
-- Go's `map[string]V` as an association list. The first entry of a key counts; a list of this type
-- may stand in any order, as an iteration over a Go map does.
use descartes_legacy.Prelude.{
  Bool-cases, inl, inr, String, ◌≡◌, refl, Bool, true, false, Option, none, some, List, [], ◌∷◌,
  arith, eq_iff, str_eq, if◌then◌else◌,
}

abbrev pub Map {ℓ} : Type ℓ → Type ℓ
Map V = List (String × V)

module _ {ℓ} {V : Type ℓ} where
  unfoldable pub lookup : String → Map V → Option V
  lookup key [] = none
  lookup key ((first, value) ∷ entries) =
      let later = lookup key entries in if str_eq first key then some value else later

  -- `_, ok := m[k]`
  unfoldable pub has : String → Map V → Bool
  unfolding lookup
  has k m = elim (lookup k m) [ none ↦ false | some _ ↦ true ]

  -- `m[k] = v`
  unfoldable pub insert : String → V → Map V → Map V
  insert key value [] = (key, value) ∷ []
  insert key value ((first, old) ∷ entries) =
      let later = insert key value entries in
      if str_eq first key then (key, value) ∷ entries else (first, old) ∷ later

  -- `delete(m, k)`
  unfoldable pub delete : String → Map V → Map V
  delete k [] = []
  delete k ((j, w) ∷ m) = let rest = delete k m in if str_eq j k then rest else (j, w) ∷ rest

  -- `for k, v := range src { dst[k] = v }`
  unfoldable pub copy_into : Map V → Map V → Map V
  copy_into [] dst = dst
  copy_into ((k, v) ∷ src) dst = copy_into src (insert k v dst)

  pub lookup-insert :
      (key other : String) (value : V) (entries : Map V)
      → lookup other (insert key value entries)
        ≡ (if str_eq key other then some value else lookup other entries)
  unfolding lookup insert
  lookup-insert key other value [] = refl
  lookup-insert key other value ((first, old) ∷ entries) = ground (
    arith,
    eq_iff key other,
    eq_iff first key,
    eq_iff first other,
    lookup-insert key other value entries,
  )

  pub lookup-delete :
      (k j : String) (m : Map V) → lookup j (delete k m) ≡ (if str_eq k j then none else lookup j m)
  unfolding lookup delete
  lookup-delete k j [] = ground arith
  lookup-delete k j ((i, w) ∷ m) =
      ground (arith, eq_iff k j, eq_iff i k, eq_iff i j, lookup-delete k j m)

  pub has-insert :
      (k j : String) (v : V) (m : Map V)
      → has j (insert k v m) ≡ (if str_eq k j then true else has j m)
  unfolding has
  has-insert k j v m =
      rw (lookup-insert k j v m, has)
        (elim (Bool-cases (str_eq k j)) [ inl c ↦ rw c refl | inr c ↦ rw c refl ])

  pub has-delete :
      (k j : String) (m : Map V) → has j (delete k m) ≡ (if str_eq k j then false else has j m)
  unfolding has
  has-delete k j m =
      rw (lookup-delete k j m, has)
        (elim (Bool-cases (str_eq k j)) [ inl c ↦ rw c refl | inr c ↦ rw c refl ])

-- `m[k]` of a `map[string]string`: a missing key reads as the empty text.
abbrev pub or_empty : Option String → String
or_empty none = ""
or_empty (some s) = s

unfoldable pub index : String → Map String → String
index k m = or_empty (lookup k m)

pub ruleset map_laws = (lookup-insert, lookup-delete)
