-- ===== src/Scenario.antt =====
-- app/sandbox/main.go: the state that a sandbox reports, and the scenario that `main` runs:
-- `waitForDetach`, `phaseDownload`, `phaseDiskWrite` and `phaseLoadLoop` in turn.
pub mod Cost
pub mod Copies
pub mod Status
use gke_quick_prototype.Prelude.{
  ℕ, zero, suc, ◌+◌, ◌*◌, ◌==◌, Bool, true, false, Option, none, some, List, [], ◌∷◌, map,
  if◌then◌else◌,
}
use mathlib.Core.Option
use gke_quick_prototype.Prelude.Text.{Text}
use gke_quick_prototype.Provision.{Result, ok, err}
use gke_quick_prototype.Workload.{
  is_detached, Tier, TierChoice, choose_tier, LoadState, active_cores, DiskEnv, Written,
  phase_disk_write,
}

-- `unset` is the empty string of the start.
pub data Phase : Type 0 where
  unset idle download disk load : Phase

pub record SandboxState : Type 0 where
  pub phase : Phase
  pub cpu_tier : Option Tier
  pub duty_pct : ℕ
  pub ws_connected : Bool

unfoldable pub set_phase : Phase → SandboxState → SandboxState
set_phase p s = record s { phase = p }

unfoldable pub set_tier : Tier → ℕ → SandboxState → SandboxState
set_tier tier duty s = record s { cpu_tier = some tier; duty_pct = duty }

unfoldable pub set_ws_connected : Bool → SandboxState → SandboxState
set_ws_connected connected s = record s { ws_connected = connected }

unfoldable pub get_state : SandboxState → Phase × Option Tier × ℕ × Bool
get_state s = (s.phase, s.cpu_tier, s.duty_pct, s.ws_connected)

-- What the `select` of waitForDetach receives; a tick of the first ticker finds these labels.
pub data Signal : Type 0 where
  context_done heartbeat : Signal
  tick : Option (List Text) → Signal

-- `waiting`: the signals are used up, and the function has not returned.
pub data WaitEnd : Type 0 where
  local_mode context_ended detached waiting : WaitEnd

unfoldable pub wait_loop : List Signal → WaitEnd
wait_loop [] = waiting
wait_loop (context_done ∷ rest) = context_ended
wait_loop (heartbeat ∷ rest) = wait_loop rest
wait_loop (tick labels ∷ rest) =
    let later = wait_loop rest in if is_detached labels then detached else later

unfoldable pub wait_for_detach : Bool → List Signal → WaitEnd
wait_for_detach labels_missing signals = if labels_missing then local_mode else wait_loop signals

-- One download: what the calls of net/http, os and io answer, in their order. `copied` is how many
-- bytes io.Copy writes to the file, whether it fails or not.
pub record Fetch : Type 0 where
  pub request_error : Option Text
  pub response : Result ℕ
  pub create_error : Option Text
  pub copied : ℕ
  pub copy_error : Option Text

pub data FetchError : Type 0 where
  failed : Text → FetchError
  http_status : ℕ → FetchError

-- The error of `downloadToFile`, and the bytes that it leaves on the disk.
abbrev pub Download : Type 0
Download = Option FetchError × ℕ

unfoldable pub saved : ℕ → Option Text → Option Text → Download
saved copied (some e) copy_error = (some (failed e), 0)
saved copied none (some e) = (some (failed e), copied)
saved copied none none = (none, copied)

unfoldable pub responded : Fetch → Result ℕ → Download
responded f (err e) = (some (failed e), 0)
responded f (ok code) =
    if code == 200 then saved f.copied f.create_error f.copy_error else (some (http_status code), 0)

unfoldable pub download_to_file : Fetch → Download
download_to_file f = elim f.request_error [
  | some e ↦ (some (failed e), 0)
  | none ↦ responded f f.response
]

abbrev pub download_count : ℕ
download_count = 5

-- downloadFile1MB.Size
abbrev pub download_size : ℕ
download_size = 1 * 1024 * 1024

-- Whether the directory cannot be made; and at each file, whether the context is cancelled, and the
-- download.
pub record DownloadEnv : Type 0 where
  pub mkdir_fails : Bool
  pub cancelled_at : ℕ → Bool
  pub fetch : ℕ → Fetch

-- `totalDownloaded`, which the end of the phase logs, and the bytes that the phase has copied.
pub record Downloads : Type 0 where
  pub total_downloaded : ℕ
  pub copied : ℕ

unfoldable pub counted : Download → Downloads → Downloads
counted (none, copied) d = record {
  total_downloaded = d.total_downloaded + download_size;
  copied = d.copied + copied;
}
counted (some e, copied) d = record d { copied = d.copied + copied }

-- The loop with its rounds left.
unfoldable pub download_loop : ℕ → DownloadEnv → ℕ → Downloads → Downloads
download_loop zero env i d = d
download_loop (suc left) env i d =
    let rest = download_loop left env (i + 1) (counted (download_to_file (env.fetch i)) d) in
    if env.cancelled_at i then d else rest

abbrev pub no_downloads : Downloads
no_downloads = record { total_downloaded = 0; copied = 0 }

unfoldable pub phase_download : DownloadEnv → Downloads
phase_download env =
    let d = download_loop download_count env 0 no_downloads in
    if env.mkdir_fails then no_downloads else d

-- What `main` gets from outside. `states` are the states that the load loop rolls until the
-- context is done.
pub record ScenarioEnv : Type 0 where
  pub labels_missing : Bool
  pub signals : List Signal
  pub download_env : DownloadEnv
  pub cancelled_in_download : Bool
  pub disk_roll : ℕ
  pub disk_env : DiskEnv
  pub cancelled_in_disk : Bool
  pub load_roll : ℕ
  pub num_cpu : ℕ
  pub states : List LoadState

-- What a run does to its node: the downloads, the bytes that the disk phase writes, and the cores that each round of the
-- load loop keeps busy.
pub record Effects : Type 0 where
  pub state : SandboxState
  pub downloads : Downloads
  pub written : ℕ
  pub cores : List ℕ

abbrev pub at_start : SandboxState
at_start = record { phase = unset; cpu_tier = none; duty_pct = 0; ws_connected = false }

unfoldable pub phase_load_loop : ScenarioEnv → Effects → Effects
phase_load_loop env e =
    let choice = choose_tier env.load_roll env.num_cpu in
    record e {
      state = set_tier choice.tier choice.duty_cycle (set_phase load e.state);
      cores = map (λ st. active_cores st choice.max_cores) env.states;
    }

-- From `phaseDiskWrite` on, with what has been written.
unfoldable pub disk_done : ScenarioEnv → Effects → Written → Effects
disk_done env e w =
    let e' = record e { state = set_phase disk e.state; written = w.total_written } in
    if env.cancelled_in_disk then e' else phase_load_loop env e'

unfoldable pub run_disk : ScenarioEnv → Effects → Option Effects
run_disk env e = Option.map (disk_done env e) (phase_disk_write env.disk_env env.disk_roll)

unfoldable pub run_phases : ScenarioEnv → Effects → Option Effects
run_phases env e =
    let e' = record e {
      state = set_phase download e.state;
      downloads = phase_download env.download_env;
    } in
    if env.cancelled_in_download then some e' else run_disk env e'

-- What `main` has done when it waits in the pool.
abbrev pub in_pool : Effects
in_pool = record {
  state = record at_start { phase = idle };
  downloads = no_downloads;
  written = 0;
  cores = [];
}

-- `main`, with the health server and the goroutines left out.
unfoldable pub run_scenario : ScenarioEnv → Option Effects
run_scenario env = elim (wait_for_detach env.labels_missing env.signals) [
  | waiting ↦ some in_pool
  | _ ↦ run_phases env in_pool
]
