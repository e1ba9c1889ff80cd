-- ===== src/Rfc3339.antt =====
-- Package time's layout RFC 3339, in which `handleProvision` (app/controller/handlers.go) writes the
-- time of a claim into the pod's annotation and `sync` (app/controller/reconciler.go) reads it back.
-- Times are those of the years 1 to 9999; a zone is its offset in minutes.
pub mod Civil
pub mod RoundTrip
use gke_quick_prototype.Prelude.{
  ℕ, zero, suc, ◌+◌, ◌-◌, ◌*◌, ◌/◌, ◌%◌, ◌^◌, ◌==◌, ltb, leb, length, Bool, ◌&&◌, ◌||◌, Option,
  none, some, [], ◌∷◌, if◌then◌else◌,
}
use gke_quick_prototype.Prelude.Int.{ℤ, pos, negsuc, pos_part, sub_ℕ, ◌+ℤ◌, ◌-ℤ◌}
use gke_quick_prototype.Prelude.Text.{Text, is_digit, take}
use gke_quick_prototype.Clock.{Time, Duration, second, minute, hour}
use gke_quick_prototype.Lifetime.{number, leading_digits, days_in, date_time}

pub record Date : Type 0 where
  pub year : ℕ
  pub month : ℕ
  pub day : ℕ

-- The year of a day, and the day's place in it from 0; days count from January 1st of the year 1.
-- The cycles of 400, 100, 4 and 1 years.
unfoldable pub year_and_day : ℕ → ℕ × ℕ
year_and_day d =
    let d' = d % 146_097 in
    let n = d' / 36_524 - d' / 36_524 / 4 in
    let d'' = d' - 36_524 * n in
    let r = d'' % 1_461 in
    let k = r / 365 - r / 365 / 4 in
    (400 * (d / 146_097) + 100 * n + 4 * (d'' / 1_461) + k + 1, r - 365 * k)

-- The walk through the months of a year, with the months left behind month m.
unfoldable pub walk_months : ℕ → ℕ → ℕ → ℕ → Date
walk_months y zero m n = record { year = y; month = m; day = n + 1 }
walk_months y (suc left) m n =
    let later = walk_months y left (m + 1) (n - days_in y m) in
    if ltb n (days_in y m) then record { year = y; month = m; day = n + 1 } else later

unfoldable pub civil : ℕ → Date
civil d = let (y, n) = year_and_day d in walk_months y 11 1 n

abbrev pub digit : ℕ → ℕ
digit n = b'0' + n % 10

abbrev pub zone_offset : ℤ → Duration
zone_offset (pos n) = pos (n * minute)
zone_offset (negsuc n) = sub_ℕ 0 (suc n * minute)

abbrev pub hours_minutes : ℕ → Text
hours_minutes n =
    digit (n / 600) ∷ digit (n / 60) ∷ b':' ∷ digit (n % 60 / 10) ∷ digit (n % 60) ∷ []

abbrev pub print_zone : ℤ → Text
print_zone (pos zero) = b'Z' ∷ []
print_zone (pos (suc n)) = b'+' ∷ hours_minutes (suc n)
print_zone (negsuc n) = b'-' ∷ hours_minutes (suc n)

-- A second of the day.
abbrev pub print_clock : ℕ → Text → Text
print_clock s rest =
    digit (s / 36_000)
    ∷ digit (s / 3_600)
    ∷ b':'
    ∷ digit (s / 60 % 60 / 10)
    ∷ digit (s / 60 % 60)
    ∷ b':'
    ∷ digit (s % 60 / 10)
    ∷ digit (s % 60)
    ∷ rest

abbrev pub print_date : Date → Text → Text
print_date c rest =
    digit (c.year / 1_000)
    ∷ digit (c.year / 100)
    ∷ digit (c.year / 10)
    ∷ digit c.year
    ∷ b'-'
    ∷ digit (c.month / 10)
    ∷ digit c.month
    ∷ b'-'
    ∷ digit (c.day / 10)
    ∷ digit c.day
    ∷ rest

-- The seconds of the local time.
abbrev pub local_seconds : ℤ → Time → ℕ
local_seconds zone t = pos_part (t +ℤ zone_offset zone) / second

-- t.Format(time.RFC3339)
unfoldable pub format_rfc3339 : ℤ → Time → Text
format_rfc3339 zone t =
    let s = local_seconds zone t in
    print_date (civil (s / 86_400)) (b'T' ∷ print_clock (s % 86_400) (print_zone zone))

-- The hour may have one digit.
unfoldable pub parse_hour : Text → Option (ℕ × Text)
parse_hour (a ∷ b ∷ s) =
    if is_digit a
    then (if is_digit b then some (number (a ∷ b ∷ []), s) else some (number (a ∷ []), b ∷ s))
    else none
parse_hour _ = none

-- The first nine digits of a fraction.
abbrev pub fraction_of : Text → ℕ
fraction_of digits = number (take 9 digits) * 10 ^ (9 - length (take 9 digits))

unfoldable pub parse_fraction : Text → ℕ × Text
parse_fraction (c ∷ d ∷ s) =
    let (digits, rest) = leading_digits (d ∷ s) in
    if (c == b'.' || c == b',') && is_digit d then (fraction_of digits, rest) else (0, c ∷ d ∷ s)
parse_fraction s = (0, s)

-- From the colon behind the hour; the nanosecond of the day, and the rest.
unfoldable pub parse_minutes : ℕ → Text → Option (ℕ × Text)
parse_minutes h (a ∷ m1 ∷ m2 ∷ b ∷ s1 ∷ s2 ∷ rest) =
    let mi = number (m1 ∷ m2 ∷ []) in
    let s = number (s1 ∷ s2 ∷ []) in
    let (ns, zone) = parse_fraction rest in
    if a == b':'
      && b == b':'
      && is_digit m1
      && is_digit m2
      && is_digit s1
      && is_digit s2
      && leb h 23
      && leb mi 59
      && leb s 59
    then some (h * hour + mi * minute + s * second + ns, zone)
    else none
parse_minutes h _ = none

unfoldable pub parse_clock : Text → Option (ℕ × Text)
parse_clock s = elim (parse_hour s) [ none ↦ none | some (h, rest) ↦ parse_minutes h rest ]

abbrev pub signed : ℕ → ℕ → Option Duration
signed sign n =
    if sign == b'+' then some (pos n) else if sign == b'-' then some (sub_ℕ 0 n) else none

unfoldable pub parse_zone : Text → Option Duration
parse_zone (c ∷ []) = if c == b'Z' then some (pos 0) else none
parse_zone (c ∷ h1 ∷ h2 ∷ a ∷ m1 ∷ m2 ∷ []) =
    let h = number (h1 ∷ h2 ∷ []) in
    let mi = number (m1 ∷ m2 ∷ []) in
    if a == b':'
      && is_digit h1
      && is_digit h2
      && is_digit m1
      && is_digit m2
      && leb h 24
      && leb mi 60
    then signed c (h * hour + mi * minute)
    else none
parse_zone _ = none

unfoldable pub in_zone : Time → ℕ → Option Duration → Option Time
in_zone day ns none = none
in_zone day ns (some offset) = some ((day +ℤ pos ns) -ℤ offset)

unfoldable pub at_clock : Option Time → Option (ℕ × Text) → Option Time
at_clock (some day) (some (ns, zone)) = in_zone day ns (parse_zone zone)
at_clock _ _ = none

-- time.Parse(time.RFC3339, s)
unfoldable pub parse_rfc3339 : Text → Option Time
parse_rfc3339 (y1 ∷ y2 ∷ y3 ∷ y4 ∷ a ∷ m1 ∷ m2 ∷ b ∷ d1 ∷ d2 ∷ t ∷ rest) =
    let day =
      date_time (number (y1 ∷ y2 ∷ y3 ∷ y4 ∷ [])) (number (m1 ∷ m2 ∷ [])) (number (d1 ∷ d2 ∷ [])) in
    if a == b'-'
      && b == b'-'
      && t == b'T'
      && is_digit y1
      && is_digit y2
      && is_digit y3
      && is_digit y4
      && is_digit m1
      && is_digit m2
      && is_digit d1
      && is_digit d2
    then at_clock day (parse_clock rest)
    else none
parse_rfc3339 _ = none
