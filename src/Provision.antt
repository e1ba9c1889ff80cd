-- ===== src/Provision.antt =====
-- app/controller/handlers.go: `handleProvision` and `parseExpiry`.
pub mod Expiry
pub mod Durations
pub mod Outcomes
pub mod Whole
pub mod Restart
pub mod Sound
pub mod Race
use gke_quick_prototype.Prelude.{
  ℕ, ◌+◌, ◌*◌, Bool, true, false, ◌&&◌, Option, none, some, List, [], ◌∷◌, ◌++◌, ◌==◌, length,
  if◌then◌else◌,
}
use gke_quick_prototype.Prelude.Int.{ℤ, pos}
use gke_quick_prototype.Prelude.Text.{Text, codes, drop}
use gke_quick_prototype.Clock.{Time, Duration, second, minute, hour, add, sub, after}
use gke_quick_prototype.Store.{Ref, Sandbox, Store, idle, claim_idle, write, upsert}
use gke_quick_prototype.Kube.{PodPatch, patch_pod}
use gke_quick_prototype.Controller.{Controller, kick, called}
use gke_quick_prototype.PodState.{is_text}
use gke_quick_prototype.Lifetime.{parse_duration, parse_date}
use gke_quick_prototype.Rfc3339.{format_rfc3339}
use gke_quick_prototype.Http.{Response, problem, provisioned}

pub data Result {ℓ} (A : Type ℓ) : Type ℓ where
  ok : A → Result A
  err : Text → Result A

-- The request: no body, a body that does not decode, or its field `lifetime`.
pub data Request : Type 0 where
  no_body : Request
  bad_body : Text → Request
  lifetime_body : Text → Request

-- What the handler gets from outside: the readings of the clock, one for each call of time.Now in
-- the order of the source, the wording of ParseDuration's error, the local time zone in minutes, and
-- the API server's answer to the patch (`some` error).
pub record ProvisionEnv : Type 0 where
  pub namespace : Text
  pub request : Request
  pub duration_error : Text → Text
  pub zone : ℤ
  pub parse_now : Time
  pub cap_now : Time
  pub claim_start : Time
  pub claimed_now : Time
  pub detached_now : Time
  pub measured_now : Time
  pub patch_answer : Text → PodPatch → Option Text

-- s[i], where the source has checked the length
abbrev byte_at : ℕ → Text → ℕ
byte_at i s = elim (drop i s) [ [] ↦ 0 | c ∷ rest ↦ c ]

unfoldable pub has_date_shape : Text → Bool
has_date_shape s = length s == 10 && byte_at 4 s == b'-' && byte_at 7 s == b'-'

-- 23*time.Hour + 59*time.Minute + 59*time.Second
abbrev pub end_of_day : Duration
end_of_day = pos (23 * hour + 59 * minute + 59 * second)

-- The error of the duration branch, around that of ParseDuration.
abbrev pub duration_problem : ProvisionEnv → Text → Text
duration_problem env lifetime =
    codes "use duration (1h, 30m) or date (2025-12-31): " ++ env.duration_error lifetime

-- The duration branch, and the date branch in front of it.
unfoldable pub parse_as_duration : ProvisionEnv → Text → Result Time
parse_as_duration env lifetime = elim (parse_duration lifetime) [
  | none ↦ err (duration_problem env lifetime)
  | some d ↦ ok (add env.parse_now d)
]

unfoldable pub parse_expiry : ProvisionEnv → Text → Result Time
parse_expiry env lifetime =
    if has_date_shape lifetime
    then elim (parse_date lifetime) [
      | some t ↦ ok (add t end_of_day)
      | none ↦ parse_as_duration env lifetime
    ]
    else parse_as_duration env lifetime

abbrev pub default_lifetime : Text → Text
default_lifetime [] = codes "5m"
default_lifetime (c ∷ s) = c ∷ s

unfoldable pub requested_lifetime : Request → Result Text
requested_lifetime no_body = ok (default_lifetime [])
requested_lifetime (bad_body e) = err e
requested_lifetime (lifetime_body s) = ok (default_lifetime s)

-- maxExpiry := time.Now().Add(2 * time.Hour)
unfoldable pub cap_expiry : Time → Time → Time
cap_expiry now t =
    let max_expiry = add now (pos (2 * hour)) in if after t max_expiry then max_expiry else t

-- expiresAt: nil for an unlimited lifetime
unfoldable pub expiry_of : ProvisionEnv → Text → Result (Option Time)
expiry_of env lifetime =
    if is_text lifetime "unlimited" then ok none else elim (parse_expiry env lifetime) [
      | err e ↦ err e
      | ok t ↦ ok (some (cap_expiry env.cap_now t))
    ]

unfoldable pub claim_patch : Text → PodPatch
claim_patch claimed_at = record {
  set_labels = (codes "warmpool", codes "false") ∷ [];
  set_annotations =
      (codes "sandbox.gvisor/state", codes "claimed")
      ∷ (codes "sandbox.gvisor/claimed-at", claimed_at)
      ∷ [];
  owner_references = [];
}

-- The patch has failed: sb.State = "idle", and the entry is filed again.
unfoldable pub provision_rollback : Ref → Text → Controller → Response × Controller
provision_rollback r e c =
    let s = write r (record (c.store.heap r) { state = idle }) c.store in
    (
      record { code = 500; body = problem (codes "failed to claim: ") e },
      record c { store = upsert r s },
    )

unfoldable pub claimed_sandbox : ProvisionEnv → Text → Option Time → Sandbox → Sandbox
claimed_sandbox env lifetime expires_at sb = record sb {
  detached_at = some env.detached_now;
  expires_at = expires_at;
  config = some (record { lifetime = lifetime });
  ready_observed = true;
}

-- The patch has succeeded.
unfoldable pub provision_finish :
    ProvisionEnv → Text → Option Time → Ref → Controller → Response × Controller
provision_finish env lifetime expires_at r c =
    let sb = claimed_sandbox env lifetime expires_at (c.store.heap r) in
    let i = c.instruments in
    (
      record {
        code = 200;
        body = provisioned (record {
          name = sb.name;
          node = sb.node;
          pod_ip = sb.pod_ip;
          state = sb.state;
          expires_at = expires_at;
        });
      },
      kick (record c {
        store = upsert r (write r sb c.store);
        instruments = record i {
          claim_to_ready = sub env.measured_now env.claim_start ∷ i.claim_to_ready;
          claim_total = i.claim_total + 1;
        };
      }),
    )

unfoldable pub provision_answered :
    ProvisionEnv → Text → Option Time → Ref → Option Text → Controller → Response × Controller
provision_answered env lifetime expires_at r (some e) c = provision_rollback r e c
provision_answered env lifetime expires_at r none c = provision_finish env lifetime expires_at r c

-- The call of the API server, on the claimed pointer.
unfoldable pub provision_patch :
    ProvisionEnv → Text → Option Time → Option Ref → Controller → Response × Controller
provision_patch env lifetime expires_at none c =
    (record { code = 503; body = problem (codes "no idle sandboxes available") [] }, c)
provision_patch env lifetime expires_at (some r) c =
    let name = (c.store.heap r).name in
    let patch = claim_patch (format_rfc3339 env.zone env.claimed_now) in
    provision_answered env lifetime expires_at r (env.patch_answer name patch)
      (called (patch_pod env.namespace name patch) c)

unfoldable pub provision_claim :
    ProvisionEnv → Text → Option Time → Controller → Response × Controller
provision_claim env lifetime expires_at c =
    let (claimed, s) = claim_idle c.store in
    provision_patch env lifetime expires_at claimed (record c { store = s })

unfoldable pub provision_expiring :
    ProvisionEnv → Text → Result (Option Time) → Controller → Response × Controller
provision_expiring env lifetime (err e) c =
    (record { code = 400; body = problem (codes "invalid lifetime: ") e }, c)
provision_expiring env lifetime (ok expires_at) c = provision_claim env lifetime expires_at c

unfoldable pub provision_lifetime : ProvisionEnv → Result Text → Controller → Response × Controller
provision_lifetime env (err e) c =
    (record { code = 400; body = problem (codes "invalid JSON: ") e }, c)
provision_lifetime env (ok lifetime) c = provision_expiring env lifetime (expiry_of env lifetime) c

unfoldable pub handle_provision : ProvisionEnv → Controller → Response × Controller
handle_provision env c = provision_lifetime env (requested_lifetime env.request) c
