-- ===== src/Examples/SandboxCases.antt =====
-- A sandbox's scenario and its probe on concrete inputs.
use gke_quick_prototype.Prelude.{
  ◌≡◌, ◌⊎◌, refl, false, true, none, some, List, [], ◌∷◌, ◌*◌, ◌==◌, if◌then◌else◌, arith,
}
use gke_quick_prototype.Prelude.Int.{pos}
use gke_quick_prototype.Prelude.Text.{Text, codes}
use gke_quick_prototype.Clock.{second}
use gke_quick_prototype.Workload.{light_tier, peak_load, idle_load}
use gke_quick_prototype.Scenario.{
  load, get_state, heartbeat, tick, Fetch, download_to_file, responded, saved, counted,
  download_loop, phase_download, ScenarioEnv, Effects, in_pool, run_scenario,
}
use gke_quick_prototype.Scenario.Status.{status_page}
use gke_quick_prototype.Scenario.Cost.{StaysInPool, IsFrugal, run_scenario_lem}
use gke_quick_prototype.Provision.{ok}
use gke_quick_prototype.Examples.Setup.{name_a}
use gke_quick_prototype.Monitoring.{MonitoringEnv, new_metrics_client}
use gke_quick_prototype.Probe.{Round, probe_network_access}
use gke_quick_prototype.Probe.Pace.{usable}
use gke_quick_prototype.Probe.Reports.{IsOutcome, probe_start, probe_network_access_lem}

abbrev fetched : Fetch
fetched = record {
  request_error = none;
  response = ok 200;
  create_error = none;
  copied = 1048576;
  copy_error = none;
}

-- The connection breaks after 1000 bytes.
abbrev broken : Fetch
broken = record fetched { copied = 1000; copy_error = some (codes "EOF") }

abbrev claimed_labels : List Text
claimed_labels = codes "warmpool=\"false\"" ∷ []

loaded_page :
    status_page name_a
      (record { phase = load; cpu_tier = some light_tier; duty_pct = 30; ws_connected = true })
    ≡ codes
        "{\"status\":\"ok\",\"ready\":true,\"pod\":\"a\",\"phase\":\"load\",\"cpuTier\":\"light\",\"dutyPct\":0.30,\"wsConnected\":true}"
unfolding status_page get_state
loaded_page = refl

-- A claimed pod on a node with four CPUs.
abbrev claimed_run : ScenarioEnv
claimed_run = record {
  labels_missing = false;
  signals = heartbeat ∷ tick (some claimed_labels) ∷ [];
  download_env = record {
    mkdir_fails = false;
    cancelled_at = λ i. false;
    fetch = λ i. if i == 2 then broken else fetched;
  };
  cancelled_in_download = false;
  disk_roll = 0;
  disk_env = record { mkdir_fails = false; cancelled_at = λ i. false; fails_at = λ i. false };
  cancelled_in_disk = false;
  load_roll = 99;
  num_cpu = 4;
  states = peak_load ∷ idle_load ∷ [];
}

run_scenario_lem_example :
    (u : Effects) × (run_scenario claimed_run ≡ some u)
    × ((StaysInPool claimed_run × (u ≡ in_pool))
        ⊎ ((¬ StaysInPool claimed_run) × IsFrugal 1048576 4 u))
run_scenario_lem_example = run_scenario_lem 1048576 claimed_run (omega arith) (λ i. ground arith)

fetched_four :
    phase_download claimed_run.download_env
    ≡ record { total_downloaded = 4194304; copied = 4195304 }
unfolding phase_download download_loop counted download_to_file responded saved
fetched_four = refl

abbrev monitored : MonitoringEnv
monitored = record {
  client_error = none;
  pod_name = codes "a";
  pod_namespace = [];
  project = codes "p";
  on_gce = false;
  metadata_project = [];
  metadata_cluster = [];
  metadata_location = [];
  pid = codes "7";
}

abbrev rounds : List Round
rounds =
    record {
      cancelled = false;
      answer = none;
      end_ms = pos 0;
      checked_at = pos (6 * second);
      elapsed_ms = pos 6000;
      reported_at = pos (6 * second);
      sent_at = pos 40;
      write_answer = none;
    }
    ∷ record {
      cancelled = false;
      answer = some 302;
      end_ms = pos 6100;
      checked_at = pos 0;
      elapsed_ms = pos 0;
      reported_at = pos 0;
      sent_at = pos 40;
      write_answer = none;
    }
    ∷ []

probe_network_access_lem_example :
    IsOutcome
      (usable (new_metrics_client monitored))
      (probe_start (pos 0))
      (probe_network_access (usable (new_metrics_client monitored)) (pos 0) (pos 0) rounds)
probe_network_access_lem_example =
    probe_network_access_lem monitored (pos 0) (pos 0) rounds (omega arith)
