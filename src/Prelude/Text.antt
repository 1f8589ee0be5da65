-- ===== src/Prelude/Text.antt =====
-- Functions of Go's package strings. A separator of Split is one ASCII character, by its code.
use Prim.Native.Char.{Char, code}
use Prim.Native.String.{◌++◌ as append}
use Prim.Native.String.append as append_lem
use text.Mathlib.TextEquality.{Char-path}
use text.Mathlib.Text.{starts_with as text_starts_with}
use descartes_legacy.Prelude.{
  ℕ, String, ◌≡◌, refl, sym, ◌∙◌, ap, Bool, false, ◌||◌, List, [], ◌∷◌, ◌++◌, ◌==◌, str_eq,
  if◌then◌else◌, arith, Bool-cases, inl, inr,
}

-- The bytes of an ASCII text.
abbrev pub byte_codes : String → List ℕ
byte_codes String.[] = []
byte_codes (String.◌∷◌ first rest) = code first ∷ byte_codes rest

abbrev cons_head : (String → String) → List String → List String
cons_head f [] = []
cons_head f (x ∷ xs) = f x ∷ xs

-- strings.Split(s, sep)
unfoldable pub split : ℕ → String → List String
split sep String.[] = "" ∷ []
split sep (String.◌∷◌ c s) =
    let rest = split sep s in
    if code c == sep then "" ∷ rest else cons_head (λ x. String.◌∷◌ c x) rest

-- strings.Join
unfoldable pub join : String → List String → String
join sep [] = ""
join sep (x ∷ []) = x
join sep (x ∷ y ∷ ys) = append x (append sep (join sep (y ∷ ys)))

abbrev pub has_prefix : String → String → Bool
has_prefix s t = text_starts_with s t

unfoldable pub has_suffix : String → String → Bool
has_suffix String.[] t = str_eq "" t
has_suffix (String.◌∷◌ c s) t = str_eq (String.◌∷◌ c s) t || has_suffix s t

unfoldable pub contains : String → String → Bool
contains String.[] t = str_eq "" t
contains (String.◌∷◌ c s) t = has_prefix (String.◌∷◌ c s) t || contains s t

-- No character of the text has the code.
abbrev pub Lacks : ℕ → String → Type 0
Lacks sep String.[] = Unit {0}
Lacks sep (String.◌∷◌ c s) = ((code c == sep) ≡ false) × Lacks sep s

pub split_one : (sep : ℕ) (s : String) → Lacks sep s → split sep s ≡ s ∷ []
unfolding split
split_one sep String.[] h = refl
split_one sep (String.◌∷◌ c s) h = rw (h.0, split_one sep s h.1)

-- A text without the separator, the separator, and a rest.
pub split-append :
    (sep : ℕ) (s bar t : String)
    → Lacks sep s
    → split sep (append bar t) ≡ "" ∷ split sep t
    → split sep (append s (append bar t)) ≡ s ∷ split sep t
unfolding split
split-append sep String.[] bar t h e = rw append_lem.nil e
split-append sep (String.◌∷◌ c s) bar t h e =
    rw append_lem.cons (rw (h.0, split-append sep s bar t h.1 e))

-- A text is what its parts make when they are joined again.
join-cons_head :
    (bar : String) (c : Char) (x : String) (l : List String)
    → join bar (String.◌∷◌ c x ∷ l) ≡ String.◌∷◌ c (join bar (x ∷ l))
unfolding join
join-cons_head bar c x [] = refl
join-cons_head bar c x (y ∷ ys) = append_lem.cons c x (append bar (join bar (y ∷ ys)))

pub split_cons : (sep : ℕ) (s : String) → (x : String) × (l : List String) × (split sep s ≡ x ∷ l)
unfolding split
split_cons sep String.[] = ("", [], refl)
split_cons sep (String.◌∷◌ c s) = elim (Bool-cases (code c == sep)) [
  | inl e ↦ ("", split sep s, rw e refl)
  | inr e ↦ let (x, l, q) = split_cons sep s in (String.◌∷◌ c x, l, rw (e, q) refl)
]

-- A text with a separator, and a rest without one.
pub split-append_last :
    (d : Char) (s t : String)
    → Lacks (code d) t
    → split (code d) (append s (String.◌∷◌ d t)) ≡ split (code d) s ++ t ∷ []
unfolding split
split-append_last d String.[] t h = rw append_lem.nil (ground (arith, split_one (code d) t h))
split-append_last d (String.◌∷◌ c s) t h =
    let (x, l, q) = split_cons (code d) s in
    let rest = split-append_last d s t h in
    rw append_lem.cons (elim (Bool-cases (code c == code d)) [
      | inl e ↦ rw (e, rest) refl
      | inr e ↦ rw (e, rest, q) refl
    ])

join_skip :
    (d : Char) (x : String) (l : List String)
    → join (String.◌∷◌ d "") ("" ∷ x ∷ l) ≡ String.◌∷◌ d (join (String.◌∷◌ d "") (x ∷ l))
unfolding join
join_skip d x l =
    append_lem.nil (append (String.◌∷◌ d "") (join (String.◌∷◌ d "") (x ∷ l)))
    ∙ append_lem.cons d "" (join (String.◌∷◌ d "") (x ∷ l))
    ∙ ap (String.◌∷◌ d) (append_lem.nil (join (String.◌∷◌ d "") (x ∷ l)))

pub join-split : (d : Char) (s : String) → join (String.◌∷◌ d "") (split (code d) s) ≡ s
unfolding split join
join-split d String.[] = refl
join-split d (String.◌∷◌ c s) =
    let (x, l, q) = split_cons (code d) s in
    let rest : join (String.◌∷◌ d "") (x ∷ l) ≡ s =
      ap (join (String.◌∷◌ d "")) (sym q) ∙ join-split d s in
    elim (Bool-cases (code c == code d)) [
      | inl e ↦
          let same : d ≡ c = Char-path d c (ground (arith, e)) in
          rw (e, q) (join_skip d x l ∙ ap (String.◌∷◌ d) rest ∙ ap (λ k. String.◌∷◌ k s) same)
      | inr e ↦ rw (e, q) (join-cons_head (String.◌∷◌ d "") c x l ∙ ap (String.◌∷◌ c) rest)
    ]
