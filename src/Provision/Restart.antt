-- ===== src/Provision/Restart.antt =====
-- What a controller that starts afresh finds out about a sandbox that its predecessor handed out.
use gke_quick_prototype.Prelude.{true, ◌≡◌, refl, ◌∙◌, none, some, List, arith}
use gke_quick_prototype.Prelude.Text.{Text, codes, text_eq}
use gke_quick_prototype.Prelude.Map.{lookup}
use gke_quick_prototype.Clock.{Time}
use gke_quick_prototype.Store.{active, Sandbox}
use gke_quick_prototype.Store.Invariant.{IsWellFormed}
use gke_quick_prototype.Store.Views.{view}
use gke_quick_prototype.Kube.{Pod}
use gke_quick_prototype.Controller.{Controller}
use gke_quick_prototype.PodState.{derive_state}
use gke_quick_prototype.Rfc3339.RoundTrip.{IsWritable, whole_second, parse_rfc3339-format_rfc3339}
use gke_quick_prototype.Sync.{
  SyncEnv, fresh_sandbox, carry_over, note_detach, claimed_at, synced_sandbox, is_newly_scheduled,
  sync_store,
}
use gke_quick_prototype.Sync.Unique.{IsUnique, pod_of, view-sync_store-synced}
use gke_quick_prototype.Provision.{ProvisionEnv, claim_patch}
use gke_quick_prototype.Provision.Whole.{sent_patch}

abbrev annotation : Text
annotation = codes "sandbox.gvisor/claimed-at"

-- The pod has the annotation that the patch of a claim sets.
pub record IsClaimedBy (env : ProvisionEnv) (pod : Pod) : Type 0 where
  pub annotated :
      lookup (codes "sandbox.gvisor/claimed-at") pod.annotations
      ≡ lookup (codes "sandbox.gvisor/claimed-at") (sent_patch env).set_annotations
  pub writable : IsWritable env.zone env.claimed_now

pub claimed_at-sent :
    (env : ProvisionEnv) (pod : Pod)
    → IsClaimedBy env pod
    → claimed_at pod ≡ some (whole_second env.claimed_now)
unfolding claimed_at claim_patch lookup text_eq
claimed_at-sent env pod h =
    rw (h.annotated, claimed_at) (parse_rfc3339-format_rfc3339 env.zone env.claimed_now h.writable)

-- The detachment is dated and observed, the expiry and the configuration are not known.
pub record IsRecovered (t : Time) (sb : Sandbox) : Type 0 where
  pub detached : sb.detached_at ≡ some t
  pub observed : sb.ready_observed ≡ true
  pub no_expiry : sb.expires_at ≡ none
  pub no_config : sb.config ≡ none

pub synced-IsRecovered :
    (env : SyncEnv) (pod : Pod) (t : Time)
    → derive_state pod ≡ active
    → claimed_at pod ≡ some t
    → IsRecovered t (synced_sandbox env pod none)
unfolding synced_sandbox note_detach carry_over fresh_sandbox is_newly_scheduled
synced-IsRecovered env pod t a e = ground (arith, a, e)

-- A sync of a well-formed store that does not know a pod's name, with listed pods of different
-- names, where the pod is active and has the annotation of the patch that an earlier claim sent
-- (the claim's time being in the years 1 to 9999): the pod's sandbox is entered with the time of
-- that claim, to the second, as its detachment, and as observed, but with no expiry and no
-- configuration, whatever lifetime the claim asked for.
pub sync_store-IsRecovered :
    (claim : ProvisionEnv) (env : SyncEnv) (pods : List Pod) (now : Time) (c : Controller)
    (pod : Pod) (j : Text)
    → IsWellFormed c.store
    → IsUnique pods
    → pod_of pods j ≡ some pod
    → view c.store j ≡ none
    → derive_state pod ≡ active
    → IsClaimedBy claim pod
    → (sb : Sandbox) × (view (sync_store env pods now c).store j ≡ some sb)
      × IsRecovered (whole_second claim.claimed_now) sb
sync_store-IsRecovered claim env pods now c pod j wf u p v a h = (
  synced_sandbox env pod none,
  view-sync_store-synced env pods now c j wf u ∙ rw (p, v) refl,
  synced-IsRecovered env pod _ a (claimed_at-sent claim pod h),
)
