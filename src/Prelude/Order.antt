-- ===== src/Prelude/Order.antt =====
-- Go's `<` on texts: the order of their bytes, which for UTF-8 is that of their characters.
use Prim.Native.Nat.{Ordering, compare as compare_ℕ}
use Prim.Native.Char.{code}
use Prim.Native.String.{compare, then}
use Prim.Native.String.compare as compare_lem
use text.Mathlib.TextPositions.{compare_refl}
use text.Mathlib.TextEquality.{path_by_compare}
use descartes_legacy.Prelude.{ℕ, String, ◌≡◌, refl, sym, ◌∙◌, ap, Bool, true, false, arith}

abbrev pub is_less : Ordering → Bool
is_less Ordering.lt = true
is_less Ordering.eq = false
is_less Ordering.gt = false

abbrev pub str_ltb : String → String → Bool
str_ltb s t = is_less (compare s t)

abbrev flip : Ordering → Ordering
flip Ordering.lt = Ordering.gt
flip Ordering.eq = Ordering.eq
flip Ordering.gt = Ordering.lt

then-flip : (a b : ℕ) (o : Ordering) → then (compare_ℕ b a) (flip o) ≡ flip (then (compare_ℕ a b) o)
then-flip a b o = ground arith

compare-flip : (s t : String) → compare t s ≡ flip (compare s t)
compare-flip String.[] String.[] = refl
compare-flip String.[] (String.◌∷◌ d t) =
    compare_lem.cons-nil d t ∙ ap flip (sym (compare_lem.nil-cons d t))
compare-flip (String.◌∷◌ c s) String.[] =
    compare_lem.nil-cons c s ∙ ap flip (sym (compare_lem.cons-nil c s))
compare-flip (String.◌∷◌ c s) (String.◌∷◌ d t) =
    compare_lem.cons-cons d c t s
    ∙ ap (then (compare_ℕ (code d) (code c))) (compare-flip s t)
    ∙ then-flip (code c) (code d) (compare s t)
    ∙ ap flip (sym (compare_lem.cons-cons c d s t))

then_trans :
    (a b c : ℕ) (o p q : Ordering)
    → (o ≡ Ordering.lt → p ≡ Ordering.lt → q ≡ Ordering.lt)
    → then (compare_ℕ a b) o ≡ Ordering.lt
    → then (compare_ℕ b c) p ≡ Ordering.lt
    → then (compare_ℕ a c) q ≡ Ordering.lt
then_trans a b c o p q i h k = ground arith

compare-lt_trans :
    (s t u : String)
    → compare s t ≡ Ordering.lt
    → compare t u ≡ Ordering.lt
    → compare s u ≡ Ordering.lt
compare-lt_trans s String.[] String.[] h k = cc
compare-lt_trans String.[] String.[] (String.◌∷◌ e u) h k = cc
compare-lt_trans (String.◌∷◌ c s) String.[] (String.◌∷◌ e u) h k = cc (compare_lem.cons-nil c s)
compare-lt_trans s (String.◌∷◌ d t) String.[] h k = cc (compare_lem.cons-nil d t)
compare-lt_trans String.[] (String.◌∷◌ d t) (String.◌∷◌ e u) h k = compare_lem.nil-cons e u
compare-lt_trans (String.◌∷◌ c s) (String.◌∷◌ d t) (String.◌∷◌ e u) h k =
    compare_lem.cons-cons c e s u
    ∙ then_trans (code c) (code d) (code e) (compare s t) (compare t u) (compare s u)
        (compare-lt_trans s t u) (sym (compare_lem.cons-cons c d s t) ∙ h)
        (sym (compare_lem.cons-cons d e t u) ∙ k)

pub str_ltb_irrefl : (s : String) → str_ltb s s ≡ false
str_ltb_irrefl s = ap is_less (compare_refl s)

pub str_ltb_trans : (s t u : String) → str_ltb s t ≡ true → str_ltb t u ≡ true → str_ltb s u ≡ true
str_ltb_trans s t u h k =
    ap is_less (compare-lt_trans s t u (is_lt (compare s t) h) (is_lt (compare t u) k))
  where
    is_lt : (o : Ordering) → is_less o ≡ true → o ≡ Ordering.lt
    is_lt Ordering.lt h = refl
    is_lt Ordering.eq h = cc
    is_lt Ordering.gt h = cc

-- Two texts of which neither is less are equal.
pub str_ltb_total : (s t : String) → str_ltb s t ≡ false → str_ltb t s ≡ false → s ≡ t
str_ltb_total s t h k =
    path_by_compare s t (is_eq (compare s t) h (ap is_less (sym (compare-flip s t)) ∙ k))
  where
    is_eq : (o : Ordering) → is_less o ≡ false → is_less (flip o) ≡ false → o ≡ Ordering.eq
    is_eq Ordering.lt h k = cc
    is_eq Ordering.eq h k = refl
    is_eq Ordering.gt h k = cc
