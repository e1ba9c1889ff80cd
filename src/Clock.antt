-- ===== src/Clock.antt =====
-- Package time as the controller uses it. An instant and a duration are integers of nanoseconds,
-- an instant counted from Go's zero time.
use gke_quick_prototype.Prelude.{ℕ, suc, ◌%◌, Bool, false, if◌then◌else◌, ◌==◌, ◌^◌, ◌*◌, ◌-◌}
use gke_quick_prototype.Prelude.Int.{ℤ, pos, negsuc, sub_ℕ, ◌+ℤ◌, ◌-ℤ◌, ltb_ℤ}

abbrev pub Time : Type 0
Time = ℤ

abbrev pub Duration : Type 0
Duration = ℤ

abbrev pub second : ℕ
second = 1_000_000_000

abbrev pub minute : ℕ
minute = 60 * second

abbrev pub hour : ℕ
hour = 60 * minute

-- t.Add(d)
unfoldable pub add : Time → Duration → Time
add t d = t +ℤ d

-- t.Sub(u), which saturates at the ends of int64
unfoldable pub sub : Time → Time → Duration
sub t u =
    let d = t -ℤ u in
    if ltb_ℤ (pos (2 ^ 63 - 1)) d
    then pos (2 ^ 63 - 1)
    else if ltb_ℤ d (negsuc (2 ^ 63 - 1))
    then negsuc (2 ^ 63 - 1)
    else d

-- t.After(u)
abbrev pub after : Time → Time → Bool
after t u = ltb_ℤ u t

-- the zero time.Time
abbrev pub zero_time : Time
zero_time = pos 0

abbrev pub is_zero : Time → Bool
is_zero (pos n) = n == 0
is_zero (negsuc n) = false

-- d.Truncate(time.Second), towards zero
unfoldable pub truncate_second : Duration → Duration
truncate_second (pos n) = pos (n - n % second)
truncate_second (negsuc n) = sub_ℕ 0 (suc n - suc n % second)
