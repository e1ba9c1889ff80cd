-- ===== src/Rfc3339/RoundTrip.antt =====
-- What is written as RFC 3339 is read back, to the second.
use gke_quick_prototype.Prelude.{
  ℕ, zero, suc, ◌+◌, ◌-◌, ◌*◌, ◌/◌, ◌%◌, ◌≤◌, ◌<◌, ◌≡◌, refl, ap, ◌∙◌, true, some, [], ◌∷◌, arith,
}
use gke_quick_prototype.Prelude.Int.{
  ℤ, pos, negsuc, pos_part, neg_part, ◌+ℤ◌, ◌-ℤ◌, ◌≤ℤ◌, sub_ℕ, +ℤ_parts, -ℤ_parts, eq_of_parts,
}
use gke_quick_prototype.Prelude.Text.{Text, is_digit}
use gke_quick_prototype.Clock.{Time, second, minute, hour}
use gke_quick_prototype.Lifetime.{number, number_after, days_in, days_before_year, date_time}
use gke_quick_prototype.Rfc3339.{
  year_and_day, civil, digit, zone_offset, hours_minutes, print_zone, print_clock, print_date,
  local_seconds, format_rfc3339, parse_hour, parse_fraction, parse_minutes, parse_clock, signed,
  parse_zone, in_zone, at_clock, parse_rfc3339,
}
use gke_quick_prototype.Rfc3339.Civil.{year_and_day_lem, civil_lem}

digit-is_digit : (n : ℕ) → is_digit (digit n) ≡ true
digit-is_digit n = ground arith

two_digits : (n : ℕ) → n < 100 → number (digit (n / 10) ∷ digit n ∷ []) ≡ n
unfolding number_after
two_digits n h = omega arith

four_digits :
    (n : ℕ)
    → n < 10_000
    → number (digit (n / 1_000) ∷ digit (n / 100) ∷ digit (n / 10) ∷ digit n ∷ []) ≡ n
unfolding number_after
four_digits n h = omega arith

-- A whole day is read back.
date_time-civil :
    (d : ℕ) → date_time (civil d).year (civil d).month (civil d).day ≡ some (pos (24 * hour * d))
unfolding date_time
date_time-civil d =
    let c = civil_lem d in
    let (place, within) = year_and_day_lem d in
    rw c.year_is (ground (arith, c.month_in, c.day_in, c.day_is, place))

-- The hour is written with two digits, so that the colon behind it is found.
parse_hour-digits :
    (h : ℕ) (rest : Text) → h < 100 → parse_hour (digit (h / 10) ∷ digit h ∷ rest) ≡ some (h, rest)
unfolding parse_hour
parse_hour-digits h rest lt = rw (digit-is_digit (h / 10), digit-is_digit h, two_digits h lt) refl

parse_minutes-digits :
    (h m s : ℕ) (rest : Text)
    → h ≤ 23
    → m ≤ 59
    → s ≤ 59
    → parse_fraction rest ≡ (0, rest)
    → parse_minutes h (b':' ∷ digit (m / 10) ∷ digit m ∷ b':' ∷ digit (s / 10) ∷ digit s ∷ rest)
      ≡ some (h * hour + m * minute + s * second, rest)
unfolding parse_minutes
parse_minutes-digits h m s rest p q r e =
    rw
      (
        two_digits m (omega arith),
        two_digits s (omega arith),
        digit-is_digit (m / 10),
        digit-is_digit m,
        digit-is_digit (s / 10),
        digit-is_digit s,
        e,
      )
      (ground arith)

no_fraction : (zone : ℤ) → parse_fraction (print_zone zone) ≡ (0, print_zone zone)
unfolding parse_fraction
no_fraction (pos zero) = refl
no_fraction (pos (suc n)) = refl
no_fraction (negsuc n) = refl

parse_clock-parse_minutes :
    (x rest : Text) (h : ℕ) → parse_hour x ≡ some (h, rest) → parse_clock x ≡ parse_minutes h rest
unfolding parse_clock
parse_clock-parse_minutes x rest h e = rw (e, parse_clock) refl

hour_text :
    (s : ℕ) (rest : Text)
    → s < 86_400
    → parse_hour (digit (s / 36_000) ∷ digit (s / 3_600) ∷ rest) ≡ some (s / 3_600, rest)
hour_text s rest h =
    let tens : s / 36_000 ≡ s / 3_600 / 10 = omega arith in
    rw tens (parse_hour-digits (s / 3_600) rest (omega arith))

parse_clock-print :
    (s : ℕ) (zone : ℤ)
    → s < 86_400
    → parse_clock (print_clock s (print_zone zone)) ≡ some (s * second, print_zone zone)
parse_clock-print s zone h =
    let sum : s / 3_600 * hour + s / 60 % 60 * minute + s % 60 * second ≡ s * second =
      omega arith in
    parse_clock-parse_minutes _ _ (s / 3_600) (hour_text s _ h)
    ∙ parse_minutes-digits (s / 3_600) (s / 60 % 60) (s % 60) (print_zone zone) (omega arith)
        (omega arith) (omega arith) (no_fraction zone)
    ∙ ap (λ n. some (n, print_zone zone)) sum

-- Less than a day.
abbrev pub IsZone : ℤ → Type 0
IsZone zone = (pos_part zone < 1_440) × (neg_part zone < 1_440)

zone_text : (c n : ℕ) → n < 1_440 → parse_zone (c ∷ hours_minutes n) ≡ signed c (n * minute)
unfolding parse_zone
zone_text c n h =
    let hours : number (digit (n / 600) ∷ digit (n / 60) ∷ []) ≡ n / 60 =
      unfold number_after in omega arith in
    let sum : n / 60 * hour + n % 60 * minute ≡ n * minute = omega arith in
    rw
      (
        hours,
        two_digits (n % 60) (omega arith),
        digit-is_digit (n / 600),
        digit-is_digit (n / 60),
        digit-is_digit (n % 60 / 10),
        digit-is_digit (n % 60),
      )
      (rw sum (ground arith))

parse_zone-print : (zone : ℤ) → IsZone zone → parse_zone (print_zone zone) ≡ some (zone_offset zone)
parse_zone-print (pos zero) h = unfold parse_zone in refl
parse_zone-print (pos (suc n)) h = zone_text b'+' (suc n) h.0
parse_zone-print (negsuc n) h = zone_text b'-' (suc n) h.1

-- The time in this zone lies in the years 1 to 9999.
pub record IsWritable (zone : ℤ) (t : Time) : Type 0 where
  pub offset_in : IsZone zone
  pub from_year_1 : pos 0 ≤ℤ t +ℤ zone_offset zone
  pub to_year_9999 : local_seconds zone t < 86_400 * 3_652_059

-- A time without its fraction of a second.
unfoldable pub whole_second : Time → Time
whole_second (pos n) = pos (n - n % second)
whole_second (negsuc n) = sub_ℕ 0 ((suc n + (second - 1)) / second * second)

year_le : (d : ℕ) → d < 3_652_059 → (year_and_day d).0 < 10_000
year_le d h = let (place, within) = year_and_day_lem d in unfold days_before_year in omega arith

days_in_le : (y m : ℕ) {n : ℕ} → n ≤ days_in y m → n < 100
unfolding days_in
days_in_le y m h = ground (arith, h)

parse-print :
    (d s : ℕ) (zone : ℤ)
    → d < 3_652_059
    → s < 86_400
    → IsZone zone
    → parse_rfc3339 (print_date (civil d) (b'T' ∷ print_clock s (print_zone zone)))
      ≡ some ((pos (24 * hour * d) +ℤ pos (s * second)) -ℤ zone_offset zone)
unfolding parse_rfc3339 at_clock in_zone
parse-print d s zone hd hs hz =
    let c = civil_lem d in
    let y : (civil d).year < 10_000 = rw c.year_is (year_le d hd) in
    let m : (civil d).month < 100 = ground (arith, c.month_in) in
    let day : (civil d).day < 100 = days_in_le (year_and_day d).0 (civil d).month c.day_in.1 in
    rw
      (
        four_digits (civil d).year y,
        two_digits (civil d).month m,
        two_digits (civil d).day day,
        digit-is_digit ((civil d).year / 1_000),
        digit-is_digit ((civil d).year / 100),
        digit-is_digit ((civil d).year / 10),
        digit-is_digit (civil d).year,
        digit-is_digit ((civil d).month / 10),
        digit-is_digit (civil d).month,
        digit-is_digit ((civil d).day / 10),
        digit-is_digit (civil d).day,
        date_time-civil d,
        parse_clock-print s zone hs,
        parse_zone-print zone hz,
      )
      refl

zone_offset_parts :
    (zone : ℤ)
    → (pos_part (zone_offset zone) ≡ pos_part zone * minute)
      × (neg_part (zone_offset zone) ≡ neg_part zone * minute)
zone_offset_parts (pos n) = (refl, refl)
zone_offset_parts (negsuc n) = (ground arith, ground arith)

no_neg_part : (a : ℤ) → pos 0 ≤ℤ a → neg_part a ≡ 0
no_neg_part (pos n) h = refl
no_neg_part (negsuc n) h = omega (arith, h)

-- A zone's offset has no fraction of a second, so that the local clock and the instant lose the same.
whole_second_lem :
    (zone : ℤ) (t : Time) (n : ℕ)
    → pos 0 ≤ℤ t +ℤ zone_offset zone
    → n ≡ local_seconds zone t * second
    → pos n -ℤ zone_offset zone ≡ whole_second t
unfolding whole_second
whole_second_lem zone (pos u) n h e = eq_of_parts _ _ (
    omega (
      arith,
      no_neg_part _ h,
      e,
      zone_offset_parts zone,
      +ℤ_parts (pos u) (zone_offset zone),
      -ℤ_parts (pos n) (zone_offset zone),
    ))
whole_second_lem zone (negsuc u) n h e = eq_of_parts _ _ (
    ground (
      arith,
      no_neg_part _ h,
      e,
      zone_offset_parts zone,
      +ℤ_parts (negsuc u) (zone_offset zone),
      -ℤ_parts (pos n) (zone_offset zone),
    ))

-- A time whose local time, in a zone with an offset of whole minutes and less than a day, is in the
-- years 1 to 9999: parsing what it is formatted as gives the time back, less its fraction of a
-- second, whatever the zone.
pub parse_rfc3339-format_rfc3339 :
    (zone : ℤ) (t : Time)
    → IsWritable zone t
    → parse_rfc3339 (format_rfc3339 zone t) ≡ some (whole_second t)
unfolding format_rfc3339
parse_rfc3339-format_rfc3339 zone t h =
    let l = local_seconds zone t in
    let sum : pos (24 * hour * (l / 86_400)) +ℤ pos (l % 86_400 * second) ≡ pos (l * second) =
      eq_of_parts _ _
        (omega (arith, +ℤ_parts (pos (24 * hour * (l / 86_400))) (pos (l % 86_400 * second)))) in
    parse-print (l / 86_400) (l % 86_400) zone (ground (arith, h.to_year_9999)) (omega arith)
      h.offset_in
    ∙ rw sum (ap some (whole_second_lem zone t (l * second) h.from_year_1 refl))
