-- ===== src/Prelude/Decimal/RoundTrip.antt =====
-- Reading back a printed integer, and so: two integers are printed differently.
use Prim.Native.Char.{code}
use Prim.Native.String.{◌++◌ as append}
use Prim.Native.String.append as append_lem
use descartes_legacy.Prelude.{
  ℕ, zero, suc, ◌+◌, ◌-◌, ◌*◌, ◌/◌, ◌%◌, ◌≤◌, ◌<◌, String, ◌≡◌, refl, sym, ◌∙◌, ap, true,
  Bool-cases, inl, inr, Option, none, some, arith, ltb,
}
use descartes_legacy.Prelude.Int.{ℤ, pos, negsuc, IsInt64, half_64}
use descartes_legacy.Prelude.Result.{ok}
use descartes_legacy.Prelude.Decimal.{
  digit, is_digit, format_digits, format_nat, format_int, parse_digits, parse_nat, parse_signed,
  parse_int64, in_range, checked, negate,
}

abbrev then_digit : ℕ → Option ℕ → Option ℕ
then_digit d none = none
then_digit d (some v) = some (v * 10 + d)

parse_digits-digit : (d acc : ℕ) → d < 10 → parse_digits acc (digit d) ≡ some (acc * 10 + d)
unfolding parse_digits
parse_digits-digit zero acc h = refl
parse_digits-digit (suc zero) acc h = refl
parse_digits-digit (suc (suc zero)) acc h = refl
parse_digits-digit (suc (suc (suc zero))) acc h = refl
parse_digits-digit (suc (suc (suc (suc zero)))) acc h = refl
parse_digits-digit (suc (suc (suc (suc (suc zero))))) acc h = refl
parse_digits-digit (suc (suc (suc (suc (suc (suc zero)))))) acc h = refl
parse_digits-digit (suc (suc (suc (suc (suc (suc (suc zero))))))) acc h = refl
parse_digits-digit (suc (suc (suc (suc (suc (suc (suc (suc zero)))))))) acc h = refl
parse_digits-digit (suc (suc (suc (suc (suc (suc (suc (suc (suc zero))))))))) acc h = refl
parse_digits-digit (suc (suc (suc (suc (suc (suc (suc (suc (suc (suc n)))))))))) acc h =
    absurd (omega arith)

parse_digits-append :
    (s : String) (d acc : ℕ)
    → d < 10
    → parse_digits acc (append s (digit d)) ≡ then_digit d (parse_digits acc s)
unfolding parse_digits
parse_digits-append String.[] d acc h = rw append_lem.nil (parse_digits-digit d acc h)
parse_digits-append (String.◌∷◌ c s) d acc h =
    rw append_lem.cons (ground (arith, parse_digits-append s d (acc * 10 + (code c - 48)) h))

parse_digits-format : (f n : ℕ) → n ≤ f → parse_digits 0 (format_digits f n) ≡ some n
unfolding format_digits
parse_digits-format zero n h = parse_digits-digit n 0 (omega arith) ∙ ap some (omega arith)
parse_digits-format (suc f) n h = elim (Bool-cases (ltb n 10)) [
  | inl small ↦ rw small (parse_digits-digit n 0 (ground arith) ∙ ap some (omega arith))
  | inr large ↦ rw large (
      parse_digits-append (format_digits f (n / 10)) (n % 10) 0 (omega arith)
      ∙ (rw (parse_digits-format f (n / 10) (ground arith)) (ap some (omega arith))))
]

abbrev HeadIsDigit : String → Type 0
HeadIsDigit String.[] = ⊥
HeadIsDigit (String.◌∷◌ c s) = is_digit (code c) ≡ true

HeadIsDigit-append : (s t : String) → HeadIsDigit s → HeadIsDigit (append s t)
HeadIsDigit-append String.[] t h = absurd h
HeadIsDigit-append (String.◌∷◌ c s) t h = rw append_lem.cons h

HeadIsDigit-digit : (d : ℕ) → HeadIsDigit (digit d)
HeadIsDigit-digit zero = refl
HeadIsDigit-digit (suc zero) = refl
HeadIsDigit-digit (suc (suc zero)) = refl
HeadIsDigit-digit (suc (suc (suc zero))) = refl
HeadIsDigit-digit (suc (suc (suc (suc zero)))) = refl
HeadIsDigit-digit (suc (suc (suc (suc (suc zero))))) = refl
HeadIsDigit-digit (suc (suc (suc (suc (suc (suc zero)))))) = refl
HeadIsDigit-digit (suc (suc (suc (suc (suc (suc (suc zero))))))) = refl
HeadIsDigit-digit (suc (suc (suc (suc (suc (suc (suc (suc zero)))))))) = refl
HeadIsDigit-digit (suc (suc (suc (suc (suc (suc (suc (suc (suc n))))))))) = refl

HeadIsDigit-format : (f n : ℕ) → HeadIsDigit (format_digits f n)
unfolding format_digits
HeadIsDigit-format zero n = HeadIsDigit-digit n
HeadIsDigit-format (suc f) n = elim (Bool-cases (ltb n 10)) [
  | inl small ↦ rw small (HeadIsDigit-digit n)
  | inr large ↦ rw large (
      HeadIsDigit-append (format_digits f (n / 10)) (digit (n % 10))
        (HeadIsDigit-format f (n / 10)))
]

parse_nat_of_head : (s : String) → HeadIsDigit s → parse_nat s ≡ parse_digits 0 s
unfolding parse_nat
parse_nat_of_head String.[] h = absurd h
parse_nat_of_head (String.◌∷◌ c s) h = refl

parse_signed_of_head :
    (half : ℕ) (s : String)
    → HeadIsDigit s
    → parse_signed half s ≡ checked half pos (parse_digits 0 s)
unfolding parse_signed
parse_signed_of_head half String.[] h = absurd h
parse_signed_of_head half (String.◌∷◌ c s) h = ground arith

digits_read : (n : ℕ) → parse_digits 0 (format_nat n) ≡ some n
unfolding format_nat
digits_read n = parse_digits-format n n (omega arith)

HeadIsDigit-format_nat : (n : ℕ) → HeadIsDigit (format_nat n)
unfolding format_nat
HeadIsDigit-format_nat n = HeadIsDigit-format n n

parse_signed-minus :
    (half : ℕ) (s : String) → parse_signed half (append "-" s) ≡ checked half negate (parse_nat s)
unfolding parse_signed
parse_signed-minus half s = rw append_lem.cons (rw append_lem.nil refl)

in_range-pos : (half n : ℕ) → n < half → in_range half (pos n) ≡ ok (pos n)
in_range-pos half n h = ground arith

in_range-negsuc : (half n : ℕ) → n < half → in_range half (negsuc n) ≡ ok (negsuc n)
in_range-negsuc half n h = ground arith

parse_signed-format_nat : (half n : ℕ) → n < half → parse_signed half (format_nat n) ≡ ok (pos n)
parse_signed-format_nat half n h =
    parse_signed_of_head half (format_nat n) (HeadIsDigit-format_nat n)
    ∙ ap (checked half pos) (digits_read n)
    ∙ in_range-pos half n h

parse_signed-negative :
    (half n : ℕ) → n < half → parse_signed half (append "-" (format_nat (suc n))) ≡ ok (negsuc n)
parse_signed-negative half n h =
    parse_signed-minus half (format_nat (suc n))
    ∙ ap (checked half negate) (
        parse_nat_of_head (format_nat (suc n)) (HeadIsDigit-format_nat (suc n))
        ∙ digits_read (suc n))
    ∙ in_range-negsuc half n h

-- Every 64-bit integer that is printed is read back.
pub parse_int64-format_int : (z : ℤ) → IsInt64 z → parse_int64 (format_int z) ≡ ok z
unfolding parse_int64 format_int
parse_int64-format_int (pos n) h = parse_signed-format_nat half_64 n (omega arith)
parse_int64-format_int (negsuc n) h = parse_signed-negative half_64 n (omega arith)

-- Two numbers that are printed alike are equal.
pub format_nat-injective : (m n : ℕ) → format_nat m ≡ format_nat n → m ≡ n
format_nat-injective m n h =
    let e : some m ≡ some n = sym (digits_read m) ∙ ap (parse_digits 0) h ∙ digits_read n in cc
