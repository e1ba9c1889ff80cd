-- ===== src/Lifecycle/Restarted.antt =====
-- A sandbox that an earlier controller has handed out, through the syncs of a new one.
use gke_quick_prototype.Prelude.{
  false, ◌&&◌, ◌≡◌, refl, sym, subst, ap, ◌∙◌, none, some, List, All, if◌then◌else◌,
}
use gke_quick_prototype.Prelude.Text.{Text}
use gke_quick_prototype.Store.{Sandbox}
use gke_quick_prototype.Store.Invariant.{IsWellFormed}
use gke_quick_prototype.Store.Views.{view}
use gke_quick_prototype.Store.Counts.{is_claimed}
use gke_quick_prototype.Controller.{Controller}
use gke_quick_prototype.Rfc3339.RoundTrip.{whole_second}
use gke_quick_prototype.Sync.{synced_sandbox}
use gke_quick_prototype.Sync.Unique.{synced, pod_of, after_pods-synced}
use gke_quick_prototype.Sync.Reflects.{synced-Reflects}
use gke_quick_prototype.Gc.Rules.{InService}
use gke_quick_prototype.Gc.Sweep.{surviving}
use gke_quick_prototype.Reconciler.{ReconcileEnv, sync_env, sync}
use gke_quick_prototype.Reconciler.Whole.{listed_view, sync_lem}
use gke_quick_prototype.Provision.{ProvisionEnv}
use gke_quick_prototype.Provision.Restart.{IsClaimedBy, claimed_at-sent, synced-IsRecovered}
use gke_quick_prototype.Lifecycle.{run_ticks, Terms, IsHeld, is_over, Lists, Spares}
use gke_quick_prototype.Lifecycle.Held.{pod_of-name, survives, sync-IsHeld, run_ticks-IsHeld}

-- What is left of the terms of a claim: the time of the claim, to the second.
abbrev pub restored_terms : ProvisionEnv → Terms
restored_terms claim = record {
  expiry = none;
  detached = some (whole_second claim.claimed_now);
  config = none;
}

module _ (claim : ProvisionEnv) (name : Text) (first : ReconcileEnv) (c : Controller)
    (wf : IsWellFormed c.store) (unknown : view c.store name ≡ none) (l : Lists name first)
    (claimed : IsClaimedBy claim l.pod)
    (early : (is_over first.gc_env.now none (some (whole_second claim.claimed_now))
        && first.gc_env.deletes name)
      ≡ false) where
  abbrev entered : Sandbox
  entered = synced_sandbox (sync_env first) l.pod none

  entered-IsHeld : IsHeld (restored_terms claim) entered
  entered-IsHeld =
      let r =
        synced-IsRecovered (sync_env first) l.pod _ l.left_pool
          (claimed_at-sent claim l.pod claimed) in
      let same = synced-Reflects (sync_env first) l.pod none in
      record {
        same_expiry = r.no_expiry;
        same_detached = r.detached;
        same_config = r.no_config;
        handed_out = ap is_claimed (same.same_state ∙ l.left_pool);
      }

  view-sync : view (sync first c).store name ≡ some entered
  view-sync =
      let same = synced-Reflects (sync_env first) l.pod none in
      let seen : synced (sync_env first) (pod_of l.pods name) (view c.store name) ≡ some entered =
        rw (l.found, unknown) refl in
      (sync_lem first c wf).1 name
      ∙ ap (listed_view first c name) l.listed
      ∙ ap (surviving first.gc_env)
          (after_pods-synced (sync_env first) l.pods name (view c.store name) l.unique ∙ seen)
      ∙ survives (restored_terms claim) name first.gc_env entered entered-IsHeld
          (same.same_state ∙ l.left_pool) (subst InService (sym same.same_phase) l.in_service)
          (same.same_name ∙ pod_of-name l.pods name l.pod l.found)
      ∙ rw early refl

  -- A controller with a well-formed store that does not know a pod's name, as after a start; a first
  -- sync that lists pods of different names, and among them this one, as one that has left the pool,
  -- is in service and has the annotation of the patch that an earlier claim sent, in the years 1 to
  -- 9999; then syncs that each list pods of different names, and one of this name, as one that has
  -- left the pool and is in service. Every sync leaves a sandbox under the name with the time of that
  -- claim, to the second, as its detachment, and with no expiry and no configuration, as long as that
  -- time is not more than 24 hours back as the collector looks, or its deletion of the pod fails. The
  -- next sync that finds it further back and whose deletion succeeds removes it.
  pub restarted_until_over :
      (envs : List ReconcileEnv) (last : ReconcileEnv)
      → All (Spares (restored_terms claim) name) envs
      → Lists name last
      → (sb : Sandbox) × IsHeld (restored_terms claim) sb
        × (view (sync last (run_ticks envs (sync first c))).store name ≡ (
            if is_over last.gc_env.now none (some (whole_second claim.claimed_now))
              && last.gc_env.deletes name
            then none
            else some sb))
  restarted_until_over envs last spared k =
      let (wf', (old, v, h)) =
        run_ticks-IsHeld (restored_terms claim) name envs (sync first c) (sync_lem first c wf).0
          (entered, view-sync, entered-IsHeld) spared in
      sync-IsHeld (restored_terms claim) name last (run_ticks envs (sync first c)) old wf' k v h
