-- ===== src/Examples/WorkloadCases.antt =====
-- The workload of a sandbox on concrete inputs.
use gke_quick_prototype.Prelude.{
  ◌≡◌, ◌+◌, ◌*◌, ◌≤◌, List, refl, not, true, false, none, some, [], ◌∷◌, ◌++◌, ◌==◌, arith,
}
use gke_quick_prototype.Prelude.Text.{strip_prefix, codes, text_eq}
use gke_quick_prototype.Workload.{
  label_key, quote, is_detached, DiskEnv, context_cancelled, Written, target_bytes, write_loop,
  phase_disk_write,
}
use gke_quick_prototype.Prelude.Int.{◌-ℤ◌}
use gke_quick_prototype.Workload.{choose_tier}
use gke_quick_prototype.Workload.Burst.{
  millisecond, hold_duration, Round, burn_dur, sleep_dur, pause, burn, begin_window, rest_of_window,
  busy_round, keep_busy, rested, keep_busy_lem,
}
use gke_quick_prototype.Workload.Labels.{is_detached_lem}
use gke_quick_prototype.Workload.Bounds.{IsBounded, phase_disk_write_lem}

quoted_label :
    (is_detached none ≡ true)
    × (is_detached (some (codes "app=sandbox" ∷ [])) ≡ true)
    × (is_detached (
          some
            ((codes "app=sandbox" ∷ []) ++ (label_key ++ quote ∷ codes "false" ++ quote ∷ []) ∷ []))
        ≡ not (text_eq (codes "false") (codes "true")))
unfolding strip_prefix
quoted_label =
    is_detached_lem (codes "app=sandbox" ∷ []) (codes "false") [] (refl, tt)
      (ground arith, (ground arith, (ground arith, (ground arith, (ground arith, tt)))))

-- A context that is cancelled before the third file.
abbrev brief : DiskEnv
brief = record { mkdir_fails = false; cancelled_at = λ i. i == 2; fails_at = λ i. false }

brief_run :
    phase_disk_write brief 0
    ≡ some (record { end = context_cancelled; total_written = 134217728; file_index = 2 })
unfolding phase_disk_write write_loop target_bytes
brief_run = refl

phase_disk_write_lem_example :
    (w : Written) × (phase_disk_write brief 0 ≡ some w) × IsBounded (target_bytes 0) w
phase_disk_write_lem_example = phase_disk_write_lem brief 0

-- Thirty milliseconds of burning and seventy of sleep, and then the core burns again until the rounds
-- are used up.
abbrev two_windows : List Round
two_windows =
    record {
      lag = 1;
      delay = 0;
      spins = 20 * millisecond ∷ 10 * millisecond ∷ [];
      oversleep = 5;
      cancelled = false;
    }
    ∷ record { lag = 0; delay = 2; spins = []; oversleep = 0; cancelled = false }
    ∷ []

two_burn :
    keep_busy hold_duration 30 two_windows (rested 0)
    ≡ record { clock = 100 * millisecond + 8; windows = 2; asked = 60 * millisecond }
unfolding keep_busy busy_round rest_of_window begin_window burn burn_dur sleep_dur pause ◌-ℤ◌
two_burn = refl

keep_busy_lem_example :
    let duty = (choose_tier 10 4).duty_cycle in
    let s = keep_busy (7 + hold_duration) duty two_windows (rested 7) in
    (s.windows ≤ 300) × (100 * s.asked ≤ duty * hold_duration)
keep_busy_lem_example = keep_busy_lem 10 4 7 two_windows
