-- ===== src/Provision/Race.antt =====
-- A claim while the reconciler runs: between ClaimIdle and the answer to the patch the handler
-- holds no lock, and a sync whose list of pods was made before the patch may come in between.
use gke_quick_prototype.Prelude.{
  ◌≡◌, refl, subst, Option, none, some, List, Option-cases, inl, inr, arith,
}
use gke_quick_prototype.Prelude.Text.{Text}
use gke_quick_prototype.Clock.{Time}
use gke_quick_prototype.Store.{idle, Ref, Sandbox, claim_idle}
use gke_quick_prototype.Store.Invariant.{IsWellFormed, claim_idle-IsWellFormed}
use gke_quick_prototype.Store.Views.{view}
use gke_quick_prototype.Store.Claim.{claim_idle_lem, claim_idle-none}
use gke_quick_prototype.Kube.{Pod}
use gke_quick_prototype.Controller.{Controller}
use gke_quick_prototype.PodState.{derive_state}
use gke_quick_prototype.Sync.{SyncEnv, sync_store}
use gke_quick_prototype.Sync.Loop.{sync_store-IsWellFormed}
use gke_quick_prototype.Sync.Reflects.{last_live, Mirrors, sync_store-Mirrors}

-- A name's entry that mirrors a ready pod of the pool is idle.
mirrored_idle :
    (p : Option Pod) (pod : Pod) (o : Option Sandbox)
    → p ≡ some pod
    → Mirrors p o
    → derive_state pod ≡ idle
    → (sb : Sandbox) × (o ≡ some sb) × (sb.state ≡ idle) × (sb.name ≡ pod.name)
mirrored_idle none pod o e m d = cc
mirrored_idle (some q) pod none e m d = absurd m
mirrored_idle (some q) pod (some sb) e m d =
    (sb, refl, ground (arith, m.same_state), ground (arith, m.same_name))

idle-Mirrors :
    (p : Option Pod) (sb : Sandbox)
    → Mirrors p (some sb)
    → sb.state ≡ idle
    → (pod : Pod) × (p ≡ some pod) × (derive_state pod ≡ idle)
idle-Mirrors none sb m i = absurd m
idle-Mirrors (some pod) sb m i = (pod, refl, ground (arith, m.same_state))

-- The store as the second request finds it: the first has claimed, then a sync has run.
abbrev pub after_stale_sync : SyncEnv → List Pod → Time → Controller → Controller
after_stale_sync env pods now c =
    sync_store env pods now (record c { store = (claim_idle c.store).1 })

-- If a sync of a well-formed store runs between a claim and the answer to its patch, with a list of
-- pods in which the claimed pod still is a ready pod of the pool and no pod of another name is,
-- then the next ClaimIdle succeeds although the first claim is under way, and hands out the same
-- pod a second time.
pub double_claim :
    (env : SyncEnv) (pods : List Pod) (now : Time) (c : Controller) (r : Ref) (pod : Pod)
    → IsWellFormed c.store
    → (claim_idle c.store).0 ≡ some r
    → last_live pods (c.store.heap r).name ≡ some pod
    → derive_state pod ≡ idle
    → ((j : Text) (p : Pod)
        → last_live pods j ≡ some p
        → derive_state p ≡ idle
        → j ≡ (c.store.heap r).name)
    → (q : Ref) × ((claim_idle (after_stale_sync env pods now c).store).0 ≡ some q)
      × (((after_stale_sync env pods now c).store.heap q).name ≡ (c.store.heap r).name)
double_claim env pods now c r pod wf e l d only =
    let s = (after_stale_sync env pods now c).store in
    let first = record c { store = (claim_idle c.store).1 } in
    let wf1 : IsWellFormed first.store = claim_idle-IsWellFormed c.store wf in
    let wf2 : IsWellFormed s = sync_store-IsWellFormed env pods now first wf1 in
    let mirrors = λ (j : Text). sync_store-Mirrors env pods now first j wf1 in
    let name = (c.store.heap r).name in
    let (sb, known, sb_idle, _) =
      mirrored_idle (last_live pods name) pod (view s name) l (mirrors name) d in
    elim (Option-cases (claim_idle s).0) [
      | inl fails ↦ absurd ((claim_idle-none s wf2).0 fails name sb known sb_idle)
      | inr (q, found) ↦
          let (was_idle, filed, _) = claim_idle_lem s wf2 q found in
          let (p, listed, ready) =
            idle-Mirrors (last_live pods (s.heap q).name) (s.heap q)
              (subst (Mirrors (last_live pods (s.heap q).name)) filed (mirrors (s.heap q).name))
              was_idle in
          (q, found, only (s.heap q).name p listed ready)
    ]
