-- ===== src/Lifetime.antt =====
-- Package time's ParseDuration, and Parse with the layout 2006-01-02, which `parseExpiry` of
-- app/controller/handlers.go calls. A fraction is exact here where Go computes it in float64.
pub mod Fuel
use gke_quick_prototype.Prelude.{
  ℕ, zero, suc, ◌+◌, ◌-◌, ◌*◌, ◌^◌, ◌/◌, ◌%◌, ◌==◌, ltb, leb, length, Bool, not, ◌&&◌, ◌||◌, Option,
  none, some, [], ◌∷◌, if◌then◌else◌,
}
use gke_quick_prototype.Prelude.Int.{pos, sub_ℕ}
use gke_quick_prototype.Prelude.Text.{Text, codes, text_eq, is_digit}
use gke_quick_prototype.Clock.{Time, Duration, second, minute, hour}

unfoldable pub number_after : ℕ → Text → ℕ
number_after acc [] = acc
number_after acc (c ∷ s) = number_after (10 * acc + (c - b'0')) s

abbrev pub number : Text → ℕ
number s = number_after 0 s

-- The digits in front, and the rest.
unfoldable pub leading_digits : Text → Text × Text
leading_digits [] = ([], [])
leading_digits (c ∷ s) =
    let (digits, rest) = leading_digits s in if is_digit c then (c ∷ digits, rest) else ([], c ∷ s)

unfoldable pub leading_fraction : Text → Text × Text
leading_fraction [] = ([], [])
leading_fraction (c ∷ s) = let found = leading_digits s in if c == b'.' then found else ([], c ∷ s)

-- What stands in front of the next number.
unfoldable pub leading_unit : Text → Text × Text
leading_unit [] = ([], [])
leading_unit (c ∷ s) =
    let (unit, rest) = leading_unit s in
    if c == b'.' || is_digit c then ([], c ∷ s) else (c ∷ unit, rest)

-- The units; the two letters mu are two bytes each.
unfoldable pub unit_of : Text → Option ℕ
unit_of u =
    if text_eq u (codes "ns")
    then some 1
    else if text_eq u (codes "us")
        || text_eq u (194 ∷ 181 ∷ 115 ∷ [])
        || text_eq u (206 ∷ 188 ∷ 115 ∷ [])
    then some 1_000
    else if text_eq u (codes "ms")
    then some 1_000_000
    else if text_eq u (codes "s")
    then some second
    else if text_eq u (codes "m")
    then some minute
    else if text_eq u (codes "h")
    then some hour
    else none

unfoldable pub term_value : Text → Text → ℕ → Option ℕ
term_value whole part unit =
    let n = number whole * unit + number part * unit / 10 ^ length part in
    if leb (number whole * unit) (2 ^ 63) && leb n (2 ^ 63) then some n else none

abbrev pub and_rest : Text → Option ℕ → Option (ℕ × Text)
and_rest rest none = none
and_rest rest (some n) = some (n, rest)

abbrev pub valued : Text → Text → Text → Option ℕ → Option (ℕ × Text)
valued whole part rest none = none
valued whole part rest (some unit) = and_rest rest (term_value whole part unit)

-- One number with its unit.
unfoldable pub duration_term : Text → Option (ℕ × Text)
duration_term s =
    let (whole, s') = leading_digits s in
    let (part, s'') = leading_fraction s' in
    let (unit, rest) = leading_unit s'' in
    if length whole + length part == 0 then none else valued whole part rest (unit_of unit)

-- A term takes a digit and a letter at least, so that the length of the text is fuel enough.
unfoldable pub sum_terms : ℕ → Text → ℕ → Option ℕ
sum_terms fuel [] d = some d
sum_terms zero (c ∷ s) d = none
sum_terms (suc fuel) (c ∷ s) d = elim (duration_term (c ∷ s)) [
  | none ↦ none
  | some (n, rest) ↦
      let more = sum_terms fuel rest (d + n) in if leb (d + n) (2 ^ 63) then more else none
]

unfoldable pub unsigned : Text → Option ℕ
unsigned [] = none
unsigned (c ∷ s) =
    let d = sum_terms (length (c ∷ s)) (c ∷ s) 0 in
    if text_eq (c ∷ s) (codes "0") then some 0 else d

abbrev pub forwards : Option ℕ → Option Duration
forwards none = none
forwards (some n) = if ltb n (2 ^ 63) then some (pos n) else none

abbrev pub backwards : Option ℕ → Option Duration
backwards none = none
backwards (some n) = some (sub_ℕ 0 n)

-- time.ParseDuration
unfoldable pub parse_duration : Text → Option Duration
parse_duration [] = none
parse_duration (c ∷ s) =
    if c == b'-'
    then backwards (unsigned s)
    else if c == b'+'
    then forwards (unsigned s)
    else forwards (unsigned (c ∷ s))

abbrev pub is_leap : ℕ → Bool
is_leap y = y % 4 == 0 && (not (y % 100 == 0) || y % 400 == 0)

unfoldable pub days_in : ℕ → ℕ → ℕ
days_in y m =
    if m == 0
    then 0
    else if m == 2
    then (if is_leap y then 29 else 28)
    else if m == 4 || m == 6 || m == 9 || m == 11
    then 30
    else 31

unfoldable pub days_before : ℕ → ℕ → ℕ
days_before y zero = 0
days_before y (suc m) = days_before y m + days_in y m

-- The days from the start of the year 0, of which the year 1 has 366 behind it.
unfoldable pub days_before_year : ℕ → ℕ
days_before_year y = 365 * y + (y + 3) / 4 + (y + 399) / 400 - (y + 99) / 100

unfoldable pub date_time : ℕ → ℕ → ℕ → Option Time
date_time y m d =
    if leb 1 m && leb m 12 && leb 1 d && leb d (days_in y m)
    then some
        (sub_ℕ (24 * hour * (days_before_year y + days_before y m + (d - 1))) (24 * hour * 366))
    else none

-- time.Parse("2006-01-02", s)
unfoldable pub parse_date : Text → Option Time
parse_date (y1 ∷ y2 ∷ y3 ∷ y4 ∷ a ∷ m1 ∷ m2 ∷ b ∷ d1 ∷ d2 ∷ []) =
    if a == b'-'
      && b == b'-'
      && is_digit y1
      && is_digit y2
      && is_digit y3
      && is_digit y4
      && is_digit m1
      && is_digit m2
      && is_digit d1
      && is_digit d2
    then date_time (number (y1 ∷ y2 ∷ y3 ∷ y4 ∷ [])) (number (m1 ∷ m2 ∷ [])) (number (d1 ∷ d2 ∷ []))
    else none
parse_date _ = none
