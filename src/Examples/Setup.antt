-- ===== src/Examples/Setup.antt =====
-- A small pool: two idle sandboxes, the pods behind them, and an environment that grants requests.
use gke_quick_prototype.Prelude.{
  refl, true, false, none, some, List, [], ◌∷◌, ◌==◌, if◌then◌else◌, arith,
}
use gke_quick_prototype.Prelude.Int.{pos}
use gke_quick_prototype.Prelude.Text.{Text, codes, text_eq}
use gke_quick_prototype.Prelude.Map.{lookup}
use gke_quick_prototype.Store.{idle, Sandbox, Store}
use gke_quick_prototype.Store.Invariant.{IsWellFormed}
use gke_quick_prototype.Kube.{Pod}
use gke_quick_prototype.Controller.{Controller, Instruments}
use gke_quick_prototype.Http.{healthy}
use gke_quick_prototype.Terminal.{TerminalEnv, writes}
use gke_quick_prototype.Terminal
use gke_quick_prototype.Sync.{SyncEnv}
use gke_quick_prototype.Gc.{GcEnv}
use gke_quick_prototype.Reconciler.{ReconcileEnv}
use gke_quick_prototype.Provision.{ProvisionEnv, ok, no_body}
use gke_quick_prototype.Handlers.{ApiEnv, ReadEnv, read}

abbrev pub name_a : Text
name_a = codes "a"

abbrev pub name_b : Text
name_b = codes "b"

abbrev pub sandbox_named : Text → Sandbox
sandbox_named n = record {
  name = n;
  state = idle;
  created_at = pos 5;
  detached_at = none;
  expires_at = none;
  ready = true;
  node = codes "node-1";
  pod_ip = codes "10.0.0.42";
  phase = codes "Running";
  image_tag = codes "v1";
  config = none;
  metrics = none;
  schedule_observed = true;
  ready_observed = false;
}

abbrev pub pool : Store
pool = record {
  heap = λ r. if r == 0 then sandbox_named name_a else sandbox_named name_b;
  next = 2;
  sandboxes = (name_a, 0) ∷ (name_b, 1) ∷ [];
  pool_size = pos 2;
  last_sync = pos 7;
  mismatch_count = 0;
}

pub pool-IsWellFormed : IsWellFormed pool
unfolding lookup text_eq
pool-IsWellFormed = record {
  distinct = (refl, (refl, tt));
  filed = ((omega arith, refl), ((omega arith, refl), tt));
}

abbrev pub no_instruments : Instruments
no_instruments = record {
  schedule_duration = [];
  claim_to_ready = [];
  pool_size_gauge = pos 0;
  idle_gauge = 0;
  pending_gauge = 0;
  active_gauge = 0;
  failed_gauge = 0;
  gc_total = λ r. 0;
  sync_mismatch_total = 0;
  claim_total = 0;
  scheduled_total = 0;
}

abbrev pub start : Controller
start = record { store = pool; instruments = no_instruments; kicks = 0; calls = [] }

abbrev pub pod_named : Text → Pod
pod_named n = record {
  name = n;
  deletion = none;
  labels = (codes "managed-by", codes "warmpool") ∷ (codes "warmpool", codes "true") ∷ [];
  annotations = [];
  creation = pos 5;
  phase = codes "Running";
  pod_ip = codes "10.0.0.42";
  node_name = codes "node-1";
  conditions = record { kind = codes "Ready"; status = codes "True"; last_transition = pos 6 } ∷ [];
  statuses = [];
  images = codes "eu.gcr.io/app:v1" ∷ [];
}

abbrev pub provision_env : ProvisionEnv
provision_env = record {
  namespace = codes "sandbox";
  request = no_body;
  duration_error = λ s. codes "time: invalid duration";
  zone = pos 0;
  parse_now = pos 100;
  cap_now = pos 101;
  claim_start = pos 102;
  claimed_now = pos 103;
  detached_now = pos 104;
  measured_now = pos 105;
  patch_answer = λ n p. none;
}

abbrev pub sync_inputs : SyncEnv
sync_inputs = record { pod_now = λ n. pos 200; metrics_map = [] }

abbrev pub gc_inputs : GcEnv
gc_inputs = record { namespace = codes "sandbox"; now = pos 300; deletes = λ n. true }

abbrev pub api : ApiEnv
api = record {
  namespace = codes "sandbox";
  deploy_name = codes "sandbox-pool";
  patch_deployment = λ n. none;
  delete = λ n. none;
}

-- The user asks for a listing; the shell echoes and answers.
abbrev pub terminal_inputs : TerminalEnv
terminal_inputs = record {
  refusal = none;
  incoming = codes "ls" ∷ codes "{resize}" ∷ codes "\n" ∷ [];
  executor_error = none;
  calls =
      Terminal.reads 8
      ∷ writes none (codes "ls")
      ∷ Terminal.reads 8
      ∷ Terminal.reads 8
      ∷ writes none (codes "bin")
      ∷ [];
}

abbrev pub reads : ReadEnv
reads = record {
  log_answer = λ n. read (codes "hello");
  status_answer = λ ip. ok (record { code = 200; body = healthy });
  event_answer = λ n. ok [];
  terminal = λ n. terminal_inputs;
}

abbrev pub both_pods : List Pod
both_pods = pod_named name_a ∷ pod_named name_b ∷ []

abbrev pub reconcile_inputs : ReconcileEnv
reconcile_inputs = record {
  pods = some both_pods;
  replicas = some (some (pos 3));
  usage = none;
  pod_clock = λ n. pos 200;
  synced_at = pos 201;
  gauged_at = pos 202;
  gc_env = gc_inputs;
  completed_env = record { completed = λ ns. none; seen_at = λ ns p. pos 203 };
}
