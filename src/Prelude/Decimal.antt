-- ===== src/Prelude/Decimal.antt =====
-- Go's strconv in base 10: FormatInt, `%d`, ParseInt and Atoi.
pub mod RoundTrip
use Prim.Native.Char.{code}
use Prim.Native.String.{◌++◌ as append}
use Prim.Native.String.append as append_lem
use descartes_legacy.Prelude.{
  ℕ, zero, suc, ◌+◌, ◌-◌, ◌*◌, ◌/◌, ◌%◌, ◌≤◌, ◌<◌, String, ◌≡◌, refl, sym, ◌∙◌, Bool, ◌&&◌, Option,
  none, some, arith, ltb, leb, ◌==◌, str_eq, if◌then◌else◌,
}
use descartes_legacy.Prelude.Int.{ℤ, pos, negsuc, neg_part, ltb_ℤ}
use descartes_legacy.Prelude.Result.{Result, ok, err, ◌>>=◌}
use descartes_legacy.Prelude.Text.{has_prefix}

-- The digit of a number below 10.
abbrev digit : ℕ → String
digit zero = "0"
digit (suc zero) = "1"
digit (suc (suc zero)) = "2"
digit (suc (suc (suc zero))) = "3"
digit (suc (suc (suc (suc zero)))) = "4"
digit (suc (suc (suc (suc (suc zero))))) = "5"
digit (suc (suc (suc (suc (suc (suc zero)))))) = "6"
digit (suc (suc (suc (suc (suc (suc (suc zero))))))) = "7"
digit (suc (suc (suc (suc (suc (suc (suc (suc zero)))))))) = "8"
digit _ = "9"

-- The digits of a number, on fuel: the number itself is enough.
format_digits : ℕ → ℕ → String
format_digits zero n = digit n
format_digits (suc f) n =
    let rest = append (format_digits f (n / 10)) (digit (n % 10)) in
    if ltb n 10 then digit n else rest

unfoldable pub format_nat : ℕ → String
unfolding format_digits
format_nat n = format_digits n n

unfoldable pub format_int : ℤ → String
unfolding format_nat
format_int (pos n) = format_nat n
format_int (negsuc n) = append "-" (format_nat (suc n))

abbrev is_digit : ℕ → Bool
is_digit c = leb 48 c && leb c 57

-- The value of a text of digits that follows digits of the value `acc`.
parse_digits : ℕ → String → Option ℕ
parse_digits acc String.[] = some acc
parse_digits acc (String.◌∷◌ c s) =
    let rest = parse_digits (acc * 10 + (code c - 48)) s in if is_digit (code c) then rest else none

-- The digits of an unsigned text: at least one.
parse_nat : String → Option ℕ
unfolding parse_digits
parse_nat String.[] = none
parse_nat (String.◌∷◌ c s) = parse_digits 0 (String.◌∷◌ c s)

-- A value outside [-half, half) is a range error.
abbrev in_range : ℕ → ℤ → Result ℤ
in_range half (pos n) = if ltb n half then ok (pos n) else err "value out of range"
in_range half (negsuc n) = if ltb n half then ok (negsuc n) else err "value out of range"

abbrev negate : ℕ → ℤ
negate zero = pos 0
negate (suc n) = negsuc n

abbrev checked : ℕ → (ℕ → ℤ) → Option ℕ → Result ℤ
checked half sign none = err "invalid syntax"
checked half sign (some n) = in_range half (sign n)

-- ParseInt(s, 10, bits) with half = 2 ^ (bits - 1).
parse_signed : ℕ → String → Result ℤ
unfolding parse_nat
parse_signed half String.[] = err "invalid syntax"
parse_signed half (String.◌∷◌ c s) =
    if code c == b'-'
    then checked half negate (parse_nat s)
    else if code c == b'+'
    then checked half pos (parse_nat s)
    else checked half pos (parse_nat (String.◌∷◌ c s))

-- ParseInt(s, 10, 64), and Atoi on a 64-bit machine.
unfoldable pub parse_int64 : String → Result ℤ
unfolding parse_signed
parse_int64 = parse_signed 9223372036854775808

-- ParseInt(s, 10, 32).
unfoldable pub parse_int32 : String → Result ℤ
unfolding parse_signed
parse_int32 = parse_signed 2147483648

-- The value that ParseInt returns, whose error the caller drops: 0 for what is no number, and the
-- nearest int64 for a number out of range.
unfoldable pub parsed_value : String → ℤ
parsed_value s = elim (parse_int64 s) [
  | ok t ↦ t
  | err e ↦
      if str_eq e "invalid syntax"
      then pos 0
      else if has_prefix s "-"
      then negsuc 9223372036854775807
      else pos 9223372036854775807
]
