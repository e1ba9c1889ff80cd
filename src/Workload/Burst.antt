-- ===== src/Workload/Burst.antt =====
-- app/sandbox/main.go: a goroutine of `phaseLoadLoop` that keeps one core busy for a burst.
use gke_quick_prototype.Prelude.{
  ℕ, suc, ◌+◌, ◌*◌, ◌≤◌, ◌<◌, ◌≡◌, Bool, true, false, not, ◌⊎◌, inl, inr, Bool-cases, Option-cases,
  Option, none, some, List, [], ◌∷◌, ltb, arith, if◌then◌else◌,
}
use gke_quick_prototype.Prelude.Int.{pos, negsuc, ◌-ℤ◌, -ℤ_parts}
use gke_quick_prototype.Clock.{Duration, second}
use gke_quick_prototype.Workload.{choose_tier}

abbrev pub millisecond : ℕ
millisecond = 1_000_000

abbrev pub hold_duration : ℕ
hold_duration = 30 * second

abbrev pub window : ℕ
window = 100 * millisecond

-- The duty cycle is in percent; float64 gives the same for the two that there are.
unfoldable pub burn_dur : ℕ → ℕ
burn_dur duty = duty * millisecond

unfoldable pub sleep_dur : ℕ → Duration
sleep_dur duty = pos window -ℤ pos (burn_dur duty)

-- How long the sleep is asked to be: there is none when the duration is not positive.
unfoldable pub pause : Duration → ℕ
pause (pos n) = n
pause (negsuc n) = 0

-- What a round of the loop takes apart from what it asks for, in nanoseconds: the time before the
-- outer condition reads the clock, from there to the reading for burnEnd, between the readings of
-- the inner condition, and by which the sleep is longer than asked. At the end, whether the context
-- is done.
pub record Round : Type 0 where
  pub lag : ℕ
  pub delay : ℕ
  pub spins : List ℕ
  pub oversleep : ℕ
  pub cancelled : Bool

-- A core in a burst: the monotonic clock, how many windows it has begun to burn in, and the burning
-- that these ask for.
pub record Run : Type 0 where
  pub clock : ℕ
  pub windows : ℕ
  pub asked : ℕ

-- The inner loop from a reading on: the reading that ends it, `none` as long as it goes on.
unfoldable pub burn : ℕ → ℕ → List ℕ → Option ℕ
burn burn_end clock [] = none
burn burn_end clock (spin ∷ spins) =
    let later = burn burn_end (clock + spin) spins in
    if ltb (clock + spin) burn_end then later else some (clock + spin)

unfoldable pub begin_window : ℕ → ℕ → Run → Run
begin_window duty from s = record {
  clock = from;
  windows = suc s.windows;
  asked = s.asked + burn_dur duty;
}

-- The rest of a round after the burning; the Boolean is whether the outer loop goes on.
unfoldable pub rest_of_window : ℕ → Round → Run → Option ℕ → Run × Bool
rest_of_window duty r s none = (s, false)
rest_of_window duty r s (some t) =
    (record s { clock = t + (pause (sleep_dur duty) + r.oversleep) }, not r.cancelled)

unfoldable pub busy_round : ℕ → ℕ → Round → Run → Run × Bool
busy_round deadline duty r s =
    let checked = s.clock + r.lag in
    let from = checked + r.delay in
    if ltb checked deadline
    then rest_of_window duty r (begin_window duty from s) (burn (from + burn_dur duty) from r.spins)
    else (record s { clock = checked }, false)

unfoldable pub keep_busy : ℕ → ℕ → List Round → Run → Run
keep_busy deadline duty [] s = s
keep_busy deadline duty (r ∷ rest) s =
    let (s', goes_on) = busy_round deadline duty r s in
    let later = keep_busy deadline duty rest s' in if goes_on then later else s'

-- At the start of a burst.
abbrev pub rested : ℕ → Run
rested begun = record { clock = begun; windows = 0; asked = 0 }

burn_lem :
    (burn_end clock : ℕ) (spins : List ℕ) (t : ℕ)
    → burn burn_end clock spins ≡ some t
    → burn_end ≤ t
unfolding burn
burn_lem burn_end clock [] t e = ground arith
burn_lem burn_end clock (spin ∷ spins) t e =
    ground (arith, e, burn_lem burn_end (clock + spin) spins t)

-- Burning and sleeping take the length of a window together.
window_lem : (duty : ℕ) → window ≤ burn_dur duty + pause (sleep_dur duty)
unfolding sleep_dur pause
window_lem duty = ground (arith, -ℤ_parts (pos window) (pos (burn_dur duty)))

-- Few windows, and what they ask for.
record IsPaced (duty : ℕ) (s : Run) : Type 0 where
  few : s.windows ≤ 300
  asks : s.asked ≡ s.windows * burn_dur duty

-- Each window has taken its length.
abbrev IsOnTime : ℕ → Run → Type 0
IsOnTime begun s = begun + s.windows * window ≤ s.clock

begin_window-IsPaced :
    (begun duty from : ℕ) (s : Run)
    → IsPaced duty s
    → IsOnTime begun s
    → s.clock < begun + hold_duration
    → IsPaced duty (begin_window duty from s)
unfolding begin_window
begin_window-IsPaced begun duty from s p t h = record {
  few = omega (arith, t, h);
  asks = omega (arith, p.asks);
}

-- A round keeps the pace, and when the loop goes on it has taken a window's length.
busy_round_lem :
    (begun duty : ℕ) (r : Round) (s : Run)
    → IsPaced duty s
    → IsOnTime begun s
    → let o = busy_round (begun + hold_duration) duty r s in
      IsPaced duty o.0 × (o.1 ≡ true → IsOnTime begun o.0)
unfolding busy_round rest_of_window begin_window
busy_round_lem begun duty r s p t =
    let checked = s.clock + r.lag in
    let from = checked + r.delay in
    elim (Bool-cases (ltb checked (begun + hold_duration))) [
      | inr late ↦ rw late (record { few = p.few; asks = p.asks }, λ e. ground (arith, e))
      | inl early ↦
          let p' = begin_window-IsPaced begun duty from s p t (ground (arith, early)) in
          elim (Option-cases (burn (from + burn_dur duty) from r.spins)) [
            | inl e ↦ rw (early, e) (p', λ f. ground (arith, f))
            | inr (u, e) ↦
                rw (early, e)
                  (
                    record { few = p'.few; asks = p'.asks },
                    λ f. omega (arith, t, burn_lem _ from r.spins u e, window_lem duty),
                  )
          ]
    ]

keep_busy-IsPaced :
    (begun duty : ℕ) (rounds : List Round) (s : Run)
    → IsPaced duty s
    → IsOnTime begun s
    → IsPaced duty (keep_busy (begun + hold_duration) duty rounds s)
unfolding keep_busy
keep_busy-IsPaced begun duty [] s p t = p
keep_busy-IsPaced begun duty (r ∷ rest) s p t =
    let o = busy_round (begun + hold_duration) duty r s in
    let (p', next) = busy_round_lem begun duty r s p t in
    elim (Bool-cases o.1) [
      | inl on ↦ rw on (keep_busy-IsPaced begun duty rest o.0 p' (next on))
      | inr off ↦ rw off p'
    ]

two_duties :
    (roll cores : ℕ)
    → ((choose_tier roll cores).duty_cycle ≡ 30) ⊎ ((choose_tier roll cores).duty_cycle ≡ 100)
unfolding choose_tier
two_duties roll cores = ground arith

share :
    (duty n : ℕ)
    → (duty ≡ 30) ⊎ (duty ≡ 100)
    → n ≤ 300
    → 100 * (n * (duty * millisecond)) ≤ duty * hold_duration
share duty n (inl e) h = rw e (omega (arith, h))
share duty n (inr e) h = rw e (omega (arith, h))

-- A burst of a tier that phaseLoadLoop rolls, however long each reading, round and sleep takes: each
-- core burns in 300 windows at most, and the burning that these ask for is at most the tier's duty
-- cycle of the 30 seconds that a load state is held.
pub keep_busy_lem :
    (roll cores begun : ℕ) (rounds : List Round)
    → let duty = (choose_tier roll cores).duty_cycle in
      let s = keep_busy (begun + hold_duration) duty rounds (rested begun) in
      (s.windows ≤ 300) × (100 * s.asked ≤ duty * hold_duration)
unfolding burn_dur
keep_busy_lem roll cores begun rounds =
    let duty = (choose_tier roll cores).duty_cycle in
    let s = keep_busy (begun + hold_duration) duty rounds (rested begun) in
    let p =
      keep_busy-IsPaced begun duty rounds (rested begun)
        (record { few = omega arith; asks = omega arith }) (omega arith) in
    (p.few, rw p.asks (share duty s.windows (two_duties roll cores) p.few))
