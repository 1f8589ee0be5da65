-- ===== src/Prelude/Time.antt =====
-- Go's time.Parse and Format for the layout "2006-01-02 15:04:05", and the addition of a second.
use Prim.Native.String.{◌++◌ as append}
use descartes_legacy.Prelude.{
  ℕ, zero, suc, ◌+◌, ◌-◌, ◌*◌, ◌%◌, String, Bool, true, false, not, ◌&&◌, ◌||◌, Option, none, some,
  List, [], ◌∷◌, if◌then◌else◌, ltb, leb, ◌==◌,
}
use descartes_legacy.Prelude.Decimal.{format_nat}
use descartes_legacy.Prelude.Text.{byte_codes}

pub record Civil : Type 0 where
  pub year : ℕ
  pub month : ℕ
  pub day : ℕ
  pub hour : ℕ
  pub minute : ℕ
  pub second : ℕ

abbrev pub is_leap : ℕ → Bool
is_leap y = y % 4 == 0 && (not (y % 100 == 0) || y % 400 == 0)

abbrev pub days_in : ℕ → ℕ → ℕ
days_in y m =
    if m == 2
    then if is_leap y then 29 else 28
    else if m == 4 || m == 6 || m == 9 || m == 11
    then 30
    else 31

-- The fields of a time that exists.
abbrev pub is_valid : Civil → Bool
is_valid c =
    leb 1 c.month
    && leb c.month 12
    && leb 1 c.day
    && leb c.day (days_in c.year c.month)
    && ltb c.hour 24
    && ltb c.minute 60
    && ltb c.second 60

unfoldable pub add_second : Civil → Civil
add_second c =
    if ltb (c.second + 1) 60
    then record c { second = c.second + 1 }
    else if ltb (c.minute + 1) 60
    then record c { minute = c.minute + 1; second = 0 }
    else if ltb (c.hour + 1) 24
    then record c { hour = c.hour + 1; minute = 0; second = 0 }
    else if ltb c.day (days_in c.year c.month)
    then record c { day = c.day + 1; hour = 0; minute = 0; second = 0 }
    else if ltb c.month 12
    then record c { month = c.month + 1; day = 1; hour = 0; minute = 0; second = 0 }
    else record { year = c.year + 1; month = 1; day = 1; hour = 0; minute = 0; second = 0 }

abbrev is_digit : ℕ → Bool
is_digit c = leb b'0' c && leb c b'9'

-- `n` digits after the value `acc`.
digits : ℕ → ℕ → List ℕ → Option (ℕ × List ℕ)
digits zero acc s = some (acc, s)
digits (suc n) acc [] = none
digits (suc n) acc (c ∷ s) =
    let rest = digits n (acc * 10 + (c - b'0')) s in if is_digit c then rest else none

-- One digit or two, as the hour may have.
one_or_two : List ℕ → Option (ℕ × List ℕ)
unfolding digits
one_or_two s = elim (digits 2 0 s) [ some r ↦ some r | none ↦ digits 1 0 s ]

literal : ℕ → List ℕ → Option (List ℕ)
literal c [] = none
literal c (d ∷ s) = if d == c then some s else none

cut_spaces : List ℕ → List ℕ
cut_spaces [] = []
cut_spaces (c ∷ s) = let rest = cut_spaces s in if c == b' ' then rest else c ∷ s

skip_digits : List ℕ → List ℕ
skip_digits [] = []
skip_digits (c ∷ s) = let rest = skip_digits s in if is_digit c then rest else c ∷ s

-- What may follow the seconds: nothing, or a fraction, which Format drops.
at_end : List ℕ → Bool
unfolding skip_digits
at_end [] = true
at_end (c ∷ []) = false
at_end (c ∷ d ∷ s) = elim (skip_digits (d ∷ s)) [ [] ↦ c == b'.' && is_digit d | ◌∷◌ _ _ ↦ false ]

infixl 10 ◌>>=◌
abbrev ◌>>=◌ : {A B : Type 0} → Option A → (A → Option B) → Option B
none >>= f = none
some a >>= f = f a

unfoldable pub parse_time : String → Option Civil
unfolding digits one_or_two literal cut_spaces at_end
parse_time text = do
  (year, s) ← digits 4 0 (byte_codes text)
  s ← literal b'-' s
  (month, s) ← digits 2 0 s
  s ← literal b'-' s
  (day, s) ← digits 2 0 s
  s ← literal b' ' s
  (hour, s) ← one_or_two (cut_spaces s)
  s ← literal b':' s
  (minute, s) ← digits 2 0 s
  s ← literal b':' s
  (second, s) ← digits 2 0 s
  let c : Civil = record {
    year = year;
    month = month;
    day = day;
    hour = hour;
    minute = minute;
    second = second;
  }
  if at_end s && is_valid c then some c else none

two : ℕ → String
two n = if ltb n 10 then append "0" (format_nat n) else format_nat n

four : ℕ → String
unfolding two
four n =
    if ltb n 100
    then append "00" (two n)
    else if ltb n 1000
    then append "0" (format_nat n)
    else format_nat n

unfoldable pub format_time : Civil → String
unfolding two four
format_time c = append (four c.year) (
    append "-" (
      append (two c.month) (
        append "-" (
          append (two c.day) (
            append " " (
              append (two c.hour)
                (append ":" (append (two c.minute) (append ":" (two c.second))))))))))
