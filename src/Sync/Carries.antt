-- ===== src/Sync/Carries.antt =====
-- What a sync keeps of an entry: what only the controller knows of it.
use gke_quick_prototype.Prelude.{
  true, not, ◌&&◌, ◌≡◌, ◌≢◌, refl, ◌∙◌, Option, none, some, List, [], ◌∷◌, arith, inl, inr,
  Bool-cases,
}
use gke_quick_prototype.Prelude.Text.{Text, text_eq}
use gke_quick_prototype.Clock.{Time}
use gke_quick_prototype.Store.{Sandbox}
use gke_quick_prototype.Store.Invariant.{IsWellFormed}
use gke_quick_prototype.Store.Views.{view}
use gke_quick_prototype.Kube.{Pod}
use gke_quick_prototype.Controller.{Controller}
use gke_quick_prototype.Sync.{
  SyncEnv, fresh_sandbox, carry_over, note_detach, synced_sandbox, is_deleted, is_live, sync_store,
}
use gke_quick_prototype.Sync.Loop.{after_pod, after_pods, view-sync_store}

-- The expiry, the configuration and the flags that are set once.
pub record Keeps (old new : Sandbox) : Type 0 where
  pub same_expiry : new.expires_at ≡ old.expires_at
  pub same_config : new.config ≡ old.config
  pub schedule_kept : old.schedule_observed ≡ true → new.schedule_observed ≡ true
  pub ready_kept : new.ready_observed ≡ old.ready_observed
  pub detach_kept : old.detached_at ≢ none → new.detached_at ≢ none

abbrev pub KeepsOf : Sandbox → Option Sandbox → Type 0
KeepsOf old none = ⊥
KeepsOf old (some new) = Keeps old new

synced-Keeps :
    (env : SyncEnv) (pod : Pod) (old : Sandbox) → Keeps old (synced_sandbox env pod (some old))
unfolding synced_sandbox note_detach carry_over fresh_sandbox
synced-Keeps env pod old = ground arith

Keeps-trans : (a b c : Sandbox) → Keeps a b → Keeps b c → Keeps a c
Keeps-trans a b c h k = record {
  same_expiry = k.same_expiry ∙ h.same_expiry;
  same_config = k.same_config ∙ h.same_config;
  schedule_kept = λ e. k.schedule_kept (h.schedule_kept e);
  ready_kept = k.ready_kept ∙ h.ready_kept;
  detach_kept = λ e. k.detach_kept (h.detach_kept e);
}

KeepsOf-step :
    (env : SyncEnv) (pod : Pod) (j : Text) (old : Sandbox) (o : Option Sandbox)
    → KeepsOf old o
    → KeepsOf old (after_pod env pod j o)
unfolding after_pod
KeepsOf-step env pod j old none k = absurd k
KeepsOf-step env pod j old (some new) k =
    elim (Bool-cases (not (is_deleted pod) && text_eq pod.name j)) [
      | inl e ↦ rw (e, after_pod) (Keeps-trans old new _ k (synced-Keeps env pod new))
      | inr e ↦ rw (e, after_pod) k
    ]

after_pods-Keeps :
    (env : SyncEnv) (pods : List Pod) (j : Text) (old : Sandbox) (o : Option Sandbox)
    → KeepsOf old o
    → KeepsOf old (after_pods env pods j o)
unfolding after_pods
after_pods-Keeps env [] j old o k = k
after_pods-Keeps env (pod ∷ pods) j old o k =
    after_pods-Keeps env pods j old (after_pod env pod j o) (KeepsOf-step env pod j old o k)

-- A sync of a well-formed store never drops what only the controller knows: under a known name that
-- a live pod bears, the expiry, the configuration and the ready flag stay, a schedule flag that is
-- set stays set, and a detachment time that is there stays there.
pub sync_store-Keeps :
    (env : SyncEnv) (pods : List Pod) (now : Time) (c : Controller) (j : Text) (old : Sandbox)
    → IsWellFormed c.store
    → view c.store j ≡ some old
    → is_live pods j ≡ true
    → KeepsOf old (view (sync_store env pods now c).store j)
sync_store-Keeps env pods now c j old wf v l =
    rw (view-sync_store env pods now c j wf, l, v)
      (after_pods-Keeps env pods j old (some old) (record {
        same_expiry = refl;
        same_config = refl;
        schedule_kept = λ e. e;
        ready_kept = refl;
        detach_kept = λ e. e;
      }))
