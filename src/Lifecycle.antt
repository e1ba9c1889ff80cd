-- ===== src/Lifecycle.antt =====
-- A sandbox that a request has claimed (app/controller/handlers.go), through the syncs that the
-- reconciler then runs (app/controller/reconciler.go), until its time is over.
pub mod Held
pub mod Restarted
use gke_quick_prototype.Prelude.{
  Bool, true, false, not, ◌&&◌, ◌≡◌, ◌≢◌, refl, sym, ap, ◌∙◌, Option, none, some, List, [], ◌∷◌,
  arith, inl, inr, Bool-cases, ◌⊎◌, ◌||◌, ◌↔◌, All, Option-cases, if◌then◌else◌,
}
use gke_quick_prototype.Prelude.Int.{pos, ltb_ℤ, ◌+ℤ◌, +ℤ_parts}
use gke_quick_prototype.Prelude.Text.{Text, text_eq_iff, text_eq_refl}
use gke_quick_prototype.Clock.{Time}
use gke_quick_prototype.Store.{
  State, active, provisioning, is_idle, is_pending, Ref, claim_idle, Sandbox, ProvisionConfig,
}
use gke_quick_prototype.Store.Invariant.{IsWellFormed}
use gke_quick_prototype.Store.Views.{view}
use gke_quick_prototype.Store.Counts.{is_claimed}
use gke_quick_prototype.Kube.{Pod}
use gke_quick_prototype.Controller.{Controller, Reason}
use gke_quick_prototype.PodState.{derive_state}
use gke_quick_prototype.Sync.{
  SyncEnv, fresh_sandbox, carry_over, note_detach, synced_sandbox, is_newly_scheduled, is_live,
}
use gke_quick_prototype.Sync.Loop.{after_pods}
use gke_quick_prototype.Sync.Unique.{IsUnique, pod_of, synced, after_pods-synced}
use gke_quick_prototype.Gc.{GcEnv, gc_reason, max_unlimited_lifetime}
use gke_quick_prototype.Gc.Rules.{InService, Within, IsSpared, gc_reason-none}
use gke_quick_prototype.Gc.Sweep.{is_some, is_collected, surviving}
use gke_quick_prototype.Reconciler.{ReconcileEnv, sync_env, sync}
use gke_quick_prototype.Reconciler.Whole.{listed_view, sync_lem}
use gke_quick_prototype.Provision.{
  ok, ProvisionEnv, requested_lifetime, expiry_of, claimed_sandbox, handle_provision,
}
use gke_quick_prototype.Provision.Whole.{answer, handle_provision-claimed}
use gke_quick_prototype.Provision.Sound.{handle_provision-IsSound}

-- The ticks of Run, one sync each.
unfoldable pub run_ticks : List ReconcileEnv → Controller → Controller
run_ticks [] c = c
run_ticks (env ∷ envs) c = run_ticks envs (sync env c)

-- What a claim has fixed: its expiry, the time of the detachment, and the configuration.
pub record Terms : Type 0 where
  pub expiry : Option Time
  pub detached : Option Time
  pub config : Option ProvisionConfig

abbrev pub terms_of : ProvisionEnv → Text → Option Time → Terms
terms_of env lifetime expires_at = record {
  expiry = expires_at;
  detached = some env.detached_now;
  config = some (record { lifetime = lifetime });
}

pub record IsHeld (terms : Terms) (sb : Sandbox) : Type 0 where
  pub same_expiry : sb.expires_at ≡ terms.expiry
  pub same_detached : sb.detached_at ≡ terms.detached
  pub same_config : sb.config ≡ terms.config
  pub handed_out : is_claimed sb.state ≡ true

abbrev pub HeldUnder : Terms → Option Sandbox → Type 0
HeldUnder terms o = (sb : Sandbox) × (o ≡ some sb) × IsHeld terms sb

-- The lifetime is over: past the expiry, or without one a day past the detachment.
unfoldable pub is_over : Time → Option Time → Option Time → Bool
is_over now (some t) detached = ltb_ℤ t now
is_over now none (some d) = ltb_ℤ (d +ℤ pos max_unlimited_lifetime) now
is_over now none none = false

-- The sync lists pods of different names, among them the sandbox's own, which has left the pool and
-- is in service.
pub record Lists (name : Text) (env : ReconcileEnv) : Type 0 where
  pub pods : List Pod
  pub pod : Pod
  pub listed : env.pods ≡ some pods
  pub unique : IsUnique pods
  pub found : pod_of pods name ≡ some pod
  pub left_pool : derive_state pod ≡ active
  pub in_service : InService pod.phase

-- The collector has no reason against the sandbox, or the API server does not delete its pod.
abbrev pub Spares : Terms → Text → ReconcileEnv → Type 0
Spares terms name env =
    Lists name env
    × ((is_over env.gc_env.now terms.expiry terms.detached && env.gc_env.deletes name) ≡ false)
