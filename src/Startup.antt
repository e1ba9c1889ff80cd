-- ===== src/Startup.antt =====
-- app/controller/main.go: the configuration from the environment, and the controller as it starts.
use gke_quick_prototype.Prelude.{
  ℕ, ◌-◌, ◌^◌, Option, none, some, [], ◌∷◌, ◌++◌, ◌==◌, leb, if◌then◌else◌,
}
use gke_quick_prototype.Prelude.Int.{ℤ, pos, sub_ℕ}
use gke_quick_prototype.Prelude.Text.{Text, codes, digits_value}
use gke_quick_prototype.Store.{Ref, Sandbox, new_store}
use gke_quick_prototype.Controller.{Controller, Instruments}

-- os.Getenv: an unset variable is empty.
abbrev pub Environ : Type 0
Environ = Text → Text

abbrev pub non_empty_or : Text → Text → Text
non_empty_or [] fallback = fallback
non_empty_or (c ∷ v) fallback = c ∷ v

unfoldable pub env_or : Environ → Text → Text → Text
env_or vars key fallback = non_empty_or (vars key) fallback

unfoldable pub magnitude : Text → Option ℕ
magnitude [] = none
magnitude (c ∷ s) = digits_value 0 (c ∷ s)

-- The range of int.
abbrev pub not_above : ℕ → ℤ → ℕ → Option ℤ
not_above limit v n = if leb n limit then some v else none

unfoldable pub as_positive : Option ℕ → Option ℤ
as_positive none = none
as_positive (some n) = not_above (2 ^ 63 - 1) (pos n) n

unfoldable pub as_negative : Option ℕ → Option ℤ
as_negative none = none
as_negative (some n) = not_above (2 ^ 63) (sub_ℕ 0 n) n

-- strconv.Atoi; `none` is an error
unfoldable pub atoi : Text → Option ℤ
atoi [] = none
atoi (c ∷ s) =
    if c == b'-'
    then as_negative (magnitude s)
    else if c == b'+'
    then as_positive (magnitude s)
    else as_positive (magnitude (c ∷ s))

abbrev pub or_fallback : Option ℤ → ℤ → ℤ
or_fallback (some n) fallback = n
or_fallback none fallback = fallback

-- The empty text is no number, so the test for it and the parser's error have one result.
unfoldable pub env_int_or : Environ → Text → ℤ → ℤ
env_int_or vars key fallback = elim (vars key) [
  | [] ↦ fallback
  | c ∷ v ↦ or_fallback (atoi (c ∷ v)) fallback
]

-- What `main` sets before it makes anything.
pub record Config : Type 0 where
  pub namespace : Text
  pub deploy_name : Text
  pub pool_size : ℤ
  pub qps : ℕ
  pub burst : ℕ
  pub addr : Text

unfoldable pub read_config : Environ → Config
read_config vars = record {
  namespace = env_or vars (codes "TARGET_NAMESPACE") (codes "sandbox");
  deploy_name = env_or vars (codes "DEPLOYMENT_NAME") (codes "sandbox-pool");
  pool_size = env_int_or vars (codes "POOL_SIZE") (pos 5);
  qps = 100;
  burst = 200;
  addr = codes ":" ++ env_or vars (codes "PORT") (codes "8080");
}

-- The environment, and the Deployment's replicas: `none` if the call fails, `some none` if the
-- field is nil.
pub record StartEnv : Type 0 where
  pub vars : Environ
  pub replicas : Option (Option ℤ)

unfoldable pub initial_pool_size : StartEnv → ℤ
initial_pool_size env = elim env.replicas [
  | some (some n) ↦ n
  | _ ↦ (read_config env.vars).pool_size
]

-- The instruments as promauto registers them.
abbrev pub fresh_instruments : Instruments
fresh_instruments = record {
  schedule_duration = [];
  claim_to_ready = [];
  pool_size_gauge = pos 0;
  idle_gauge = 0;
  pending_gauge = 0;
  active_gauge = 0;
  failed_gauge = 0;
  gc_total = λ r. 0;
  sync_mismatch_total = 0;
  claim_total = 0;
  scheduled_total = 0;
}

-- `heap` is what the cells hold that nothing has been stored in.
unfoldable pub start_controller : (Ref → Sandbox) → StartEnv → Controller
start_controller heap env = record {
  store = new_store heap (initial_pool_size env);
  instruments = fresh_instruments;
  kicks = 0;
  calls = [];
}
