-- ===== src/Workload.antt =====
-- app/sandbox/main.go: what runs in a sandbox pod. `isDetached`, the tiers and the load of
-- `phaseLoadLoop`, and the loop of `phaseDiskWrite`.
pub mod Labels
pub mod Bounds
pub mod Burst
use gke_quick_prototype.Prelude.{
  ℕ, zero, suc, ◌+◌, ◌-◌, ◌*◌, ◌/◌, Bool, true, false, not, Option, none, some, List, [], ◌∷◌, ◌==◌,
  ltb, if◌then◌else◌,
}
use gke_quick_prototype.Prelude.Text.{Text, codes, text_eq, strip_prefix}

-- strings.Trim with a cutset of one byte, from the left and from the right.
unfoldable pub trim_left : ℕ → Text → Text
trim_left q [] = []
trim_left q (c ∷ s) = if c == q then trim_left q s else c ∷ s

abbrev pub keep : ℕ → ℕ → Text → Text
keep q c [] = if c == q then [] else c ∷ []
keep q c (d ∷ s) = c ∷ d ∷ s

unfoldable pub trim_right : ℕ → Text → Text
trim_right q [] = []
trim_right q (c ∷ s) = keep q c (trim_right q s)

unfoldable pub trim : ℕ → Text → Text
trim q s = trim_right q (trim_left q s)

abbrev pub label_key : Text
label_key = codes "warmpool="

abbrev pub quote : ℕ
quote = b'"'

-- The loop over the lines of the file.
unfoldable pub scan_labels : List Text → Bool
scan_labels [] = true
scan_labels (line ∷ rest) = elim (strip_prefix label_key line) [
  | none ↦ scan_labels rest
  | some val ↦ not (text_eq (trim quote val) (codes "true"))
]

-- The lines of the file with the pod's labels; `none` if it cannot be opened.
unfoldable pub is_detached : Option (List Text) → Bool
is_detached none = true
is_detached (some lines) = scan_labels lines

pub data Tier : Type 0 where
  light_tier medium_tier heavy_tier : Tier

-- The duty cycle is in percent.
pub record TierChoice : Type 0 where
  pub tier : Tier
  pub max_cores : ℕ
  pub duty_cycle : ℕ

-- The first switch of phaseLoadLoop, on a roll from 0 to 99.
unfoldable pub choose_tier : ℕ → ℕ → TierChoice
choose_tier roll total_cores =
    if ltb roll 90
    then record { tier = light_tier; max_cores = 1; duty_cycle = 30 }
    else if ltb roll 98
    then record { tier = medium_tier; max_cores = 1; duty_cycle = 100 }
    else record { tier = heavy_tier; max_cores = total_cores; duty_cycle = 100 }

pub data LoadState : Type 0 where
  idle_load light_load moderate_load heavy_load peak_load : LoadState

-- if activeCores < 1 { activeCores = 1 }
abbrev pub one_at_least : ℕ → ℕ
one_at_least n = if ltb n 1 then 1 else n

-- The second switch.
unfoldable pub active_cores : LoadState → ℕ → ℕ
active_cores idle_load max_cores = 0
active_cores light_load max_cores = 1
active_cores moderate_load max_cores = one_at_least (max_cores / 2)
active_cores heavy_load max_cores = one_at_least (max_cores - 1)
active_cores peak_load max_cores = max_cores

-- The switch of phaseDiskWrite.
unfoldable pub target_bytes : ℕ → ℕ
target_bytes roll =
    if ltb roll 90
    then 500 * 1024 * 1024
    else if ltb roll 98
    then 1 * 1024 * 1024 * 1024
    else 3 * 1024 * 1024 * 1024

abbrev pub chunk_size : ℕ
chunk_size = 67108864

-- Whether the directory cannot be made; and at each file, whether the context is cancelled and
-- whether the write fails.
pub record DiskEnv : Type 0 where
  pub mkdir_fails : Bool
  pub cancelled_at : ℕ → Bool
  pub fails_at : ℕ → Bool

pub data DiskEnd : Type 0 where
  target_reached context_cancelled write_failed no_directory : DiskEnd

pub record Written : Type 0 where
  pub end : DiskEnd
  pub total_written : ℕ
  pub file_index : ℕ

abbrev pub stopped : DiskEnd → ℕ → ℕ → Option Written
stopped end total index = some (record { end = end; total_written = total; file_index = index })

-- The loop, on fuel.
unfoldable pub write_loop : ℕ → DiskEnv → ℕ → ℕ → ℕ → Option Written
write_loop zero env target total index = none
write_loop (suc fuel) env target total index =
    let rest = write_loop fuel env target (total + chunk_size) (index + 1) in
    if ltb total target
    then if env.cancelled_at index
      then stopped context_cancelled total index
      else if env.fails_at index
      then stopped write_failed total index
      else rest
    else stopped target_reached total index

unfoldable pub phase_disk_write : DiskEnv → ℕ → Option Written
phase_disk_write env roll =
    let run = write_loop (target_bytes roll / chunk_size + 2) env (target_bytes roll) 0 0 in
    if env.mkdir_fails then stopped no_directory 0 0 else run
