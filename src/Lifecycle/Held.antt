-- ===== src/Lifecycle/Held.antt =====
-- A claimed sandbox is held under the terms of its claim until they end.
use gke_quick_prototype.Prelude.{
  true, false, ◌&&◌, ◌≡◌, refl, ap, ◌∙◌, Option, none, some, List, [], ◌∷◌, arith, inl, inr,
  Bool-cases, ◌||◌, ◌↔◌, All, Option-cases, if◌then◌else◌,
}
use gke_quick_prototype.Prelude.Int.{pos, +ℤ_parts}
use gke_quick_prototype.Prelude.Text.{Text, text_eq_iff, text_eq_refl}
use gke_quick_prototype.Clock.{Time}
use gke_quick_prototype.Store.{
  State, active, provisioning, is_idle, is_pending, Ref, claim_idle, Sandbox,
}
use gke_quick_prototype.Store.Invariant.{IsWellFormed}
use gke_quick_prototype.Store.Views.{view}
use gke_quick_prototype.Store.Counts.{is_claimed}
use gke_quick_prototype.Kube.{Pod}
use gke_quick_prototype.Controller.{Controller}
use gke_quick_prototype.PodState.{derive_state}
use gke_quick_prototype.Sync.{
  SyncEnv, fresh_sandbox, carry_over, note_detach, synced_sandbox, is_newly_scheduled,
}
use gke_quick_prototype.Sync.Unique.{pod_of, synced, after_pods-synced}
use gke_quick_prototype.Gc.{GcEnv, gc_reason, max_unlimited_lifetime}
use gke_quick_prototype.Gc.Rules.{InService, Within, gc_reason-none}
use gke_quick_prototype.Gc.Sweep.{is_some, surviving}
use gke_quick_prototype.Reconciler.{ReconcileEnv, sync_env, sync}
use gke_quick_prototype.Reconciler.Whole.{listed_view, sync_lem}
use gke_quick_prototype.Provision.{
  ok, ProvisionEnv, requested_lifetime, expiry_of, claimed_sandbox, handle_provision,
}
use gke_quick_prototype.Provision.Whole.{answer, handle_provision-claimed}
use gke_quick_prototype.Provision.Sound.{handle_provision-IsSound}
use gke_quick_prototype.Lifecycle.{
  run_ticks, Terms, terms_of, IsHeld, HeldUnder, is_over, Lists, Spares,
}

pub pod_of-name : (pods : List Pod) (j : Text) (pod : Pod) → pod_of pods j ≡ some pod → pod.name ≡ j
unfolding pod_of
pod_of-name [] j pod e = ground arith
pod_of-name (p ∷ pods) j pod e = ground (arith, e, pod_of-name pods j pod, text_eq_iff p.name j)

out_of_pool : (st : State) → is_claimed st ≡ true → (is_idle st || is_pending st) ≡ false
out_of_pool st h = ground arith

-- An entry that is handed out only takes over what the pod says.
synced-carries :
    (env : SyncEnv) (pod : Pod) (old : Sandbox)
    → is_claimed old.state ≡ true
    → derive_state pod ≡ active
    → synced_sandbox env pod (some old) ≡ carry_over (some old) (fresh_sandbox env pod)
unfolding synced_sandbox note_detach carry_over fresh_sandbox is_newly_scheduled
synced-carries env pod old h a = rw (a, out_of_pool old.state h) refl

carried-IsHeld :
    (terms : Terms) (env : SyncEnv) (pod : Pod) (old : Sandbox)
    → IsHeld terms old
    → derive_state pod ≡ active
    → IsHeld terms (carry_over (some old) (fresh_sandbox env pod))
unfolding carry_over fresh_sandbox
carried-IsHeld terms env pod old h a = record {
  same_expiry = h.same_expiry;
  same_detached = h.same_detached;
  same_config = h.same_config;
  handed_out = rw a refl;
}

is_over-Within : (now : Time) (e d : Option Time) → (is_over now e d ≡ false) ↔ Within now e d
unfolding is_over
is_over-Within now (some t) d = (λ h. ground arith, λ h. ground arith)
is_over-Within now none (some d) = (
  λ h. ground (arith, +ℤ_parts d (pos max_unlimited_lifetime)),
  λ h. ground (arith, +ℤ_parts d (pos max_unlimited_lifetime)),
)
is_over-Within now none none = (λ h. tt, λ h. refl)

reason_lem :
    (now : Time) (sb : Sandbox)
    → sb.state ≡ active
    → InService sb.phase
    → is_some (gc_reason now sb) ≡ is_over now sb.expires_at sb.detached_at
reason_lem now sb a s =
    let within = is_over-Within now sb.expires_at sb.detached_at in
    let spared = gc_reason-none now sb in
    elim (Bool-cases (is_over now sb.expires_at sb.detached_at)) [
      | inr f ↦
          let kept : gc_reason now sb ≡ none =
            spared.1 ((λ e. ground arith), λ _. (s, within.0 f)) in
          rw (kept, f) refl
      | inl t ↦ elim (Option-cases (gc_reason now sb)) [
        | inl e ↦ let f = within.1 ((spared.0 e).1 a).1 in cc
        | inr (r, e) ↦ rw (e, t) refl
      ]
    ]

module _ (terms : Terms) (name : Text) where
  pub survives :
      (env : GcEnv) (sb : Sandbox)
      → IsHeld terms sb
      → sb.state ≡ active
      → InService sb.phase
      → sb.name ≡ name
      → surviving env (some sb) ≡ (
          if is_over env.now terms.expiry terms.detached && env.deletes name then none else some sb)
  survives env sb h a s n = rw (reason_lem env.now sb a s, h.same_expiry, h.same_detached, n) refl

  -- One sync of a store in which the sandbox is held.
  pub sync-IsHeld :
      (env : ReconcileEnv) (c : Controller) (old : Sandbox)
      → IsWellFormed c.store
      → Lists name env
      → view c.store name ≡ some old
      → IsHeld terms old
      → (sb : Sandbox) × IsHeld terms sb
        × (view (sync env c).store name ≡ (
            if is_over env.gc_env.now terms.expiry terms.detached && env.gc_env.deletes name
            then none
            else some sb))
  sync-IsHeld env c old wf l v h =
      let sb = carry_over (some old) (fresh_sandbox (sync_env env) l.pod) in
      let held = carried-IsHeld terms (sync_env env) l.pod old h l.left_pool in
      let kept : synced (sync_env env) (pod_of l.pods name) (view c.store name) ≡ some sb =
        rw (l.found, v, synced-carries (sync_env env) l.pod old h.handed_out l.left_pool) refl in
      let seen : view (sync env c).store name ≡ surviving env.gc_env (some sb) =
        (sync_lem env c wf).1 name
        ∙ ap (listed_view env c name) l.listed
        ∙ ap (surviving env.gc_env)
            (after_pods-synced (sync_env env) l.pods name (view c.store name) l.unique ∙ kept) in
      (
        sb,
        held,
        seen
            ∙ (unfold carry_over fresh_sandbox in
                survives env.gc_env sb held l.left_pool l.in_service
                  (pod_of-name l.pods name l.pod l.found)),
      )

  pub run_ticks-IsHeld :
      (envs : List ReconcileEnv) (c : Controller)
      → IsWellFormed c.store
      → HeldUnder terms (view c.store name)
      → All (Spares terms name) envs
      → IsWellFormed (run_ticks envs c).store × HeldUnder terms (view (run_ticks envs c).store name)
  unfolding run_ticks
  run_ticks-IsHeld [] c wf h a = (wf, h)
  run_ticks-IsHeld (env ∷ envs) c wf (old, v, h) ((l, spared), a) =
      let (sb, held, seen) = sync-IsHeld env c old wf l v h in
      run_ticks-IsHeld envs (sync env c) (sync_lem env c wf).0 (sb, seen ∙ rw spared refl, held) a

-- A provision request whose lifetime is accepted, which claims the sandbox at `r` from a well-formed
-- store, and whose patch the API server accepts; then syncs that each list pods of different names,
-- the sandbox's own among them, as one that has left the pool and is in service. As long as the
-- lifetime of the claim is not over as the collector looks, or its deletion of the pod fails, every
-- sync leaves the sandbox under its name with the expiry, the configuration and the detachment of
-- the claim. The first sync that finds the lifetime over and whose deletion succeeds removes it.
pub claimed_until_over :
    (env : ProvisionEnv) (lifetime : Text) (expires_at : Option Time) (c : Controller) (r : Ref)
    → requested_lifetime env.request ≡ ok lifetime
    → expiry_of env lifetime ≡ ok expires_at
    → (claim_idle c.store).0 ≡ some r
    → IsWellFormed c.store
    → answer env (c.store.heap r) ≡ none
    → (envs : List ReconcileEnv) (last : ReconcileEnv)
    → All (Spares (terms_of env lifetime expires_at) (c.store.heap r).name) envs
    → Lists (c.store.heap r).name last
    → (sb : Sandbox) × IsHeld (terms_of env lifetime expires_at) sb
      × (view (sync last (run_ticks envs (handle_provision env c).1)).store (c.store.heap r).name
          ≡ (if is_over last.gc_env.now expires_at (some env.detached_now)
                && last.gc_env.deletes (c.store.heap r).name
              then none
              else some sb))
claimed_until_over env lifetime expires_at c r asked expiring claimed wf accepted envs last spared
      l =
    let terms = terms_of env lifetime expires_at in
    let name = (c.store.heap r).name in
    let handed =
      (handle_provision-claimed env lifetime expires_at c r asked expiring claimed wf accepted).2
        name in
    let start : HeldUnder terms (view (handle_provision env c).1.store name) = (
      claimed_sandbox env lifetime expires_at (record (c.store.heap r) { state = provisioning }),
      handed ∙ rw (text_eq_refl name) refl,
      unfold claimed_sandbox in
          record {
            same_expiry = refl;
            same_detached = refl;
            same_config = refl;
            handed_out = refl;
          },
    ) in
    let (wf', (old, v, h)) =
      run_ticks-IsHeld terms name envs (handle_provision env c).1
        (handle_provision-IsSound env c wf) start spared in
    sync-IsHeld terms name last (run_ticks envs (handle_provision env c).1) old wf' l v h
