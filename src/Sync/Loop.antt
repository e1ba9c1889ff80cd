-- ===== src/Sync/Loop.antt =====
-- The loop of `sync` over the pods, seen one name at a time.
use gke_quick_prototype.Prelude.{
  ℕ, not, ◌&&◌, ◌≡◌, refl, ap, ◌∙◌, Option, none, some, List, [], ◌∷◌, arith, inl, inr, Bool-cases,
  if◌then◌else◌,
}
use gke_quick_prototype.Prelude.Text.{Text, text_eq, text_eq_iff}
use gke_quick_prototype.Clock.{Time}
use gke_quick_prototype.Store.{
  Sandbox, Store, assign, alloc, upsert, prune, record_sync_success, get,
}
use gke_quick_prototype.Store.Invariant.{
  IsWellFormed, alloc-IsWellFormed, upsert-IsWellFormed, prune-IsWellFormed,
  record_sync_success-IsWellFormed,
}
use gke_quick_prototype.Store.Views.{view, view-upsert, view-alloc, view-prune}
use gke_quick_prototype.Kube.{Pod}
use gke_quick_prototype.Controller.{Controller}
use gke_quick_prototype.Sync.{
  SyncEnv, fresh_sandbox, carry_over, note_detach, synced_sandbox, is_deleted, sync_pod, sync_round,
  sync_pods, is_live, sync_store,
}

pub heap-alloc : (v : Sandbox) (s : Store) → (alloc v s).heap s.next ≡ v
unfolding alloc assign
heap-alloc v s = ground arith

pub name-synced :
    (env : SyncEnv) (pod : Pod) (o : Option Sandbox) → (synced_sandbox env pod o).name ≡ pod.name
unfolding synced_sandbox note_detach carry_over fresh_sandbox
name-synced env pod none = ground arith
name-synced env pod (some old) = ground arith

-- A new object is filed under its own name.
pub view-file :
    (s : Store) (v : Sandbox) (j : Text)
    → IsWellFormed s
    → view (upsert s.next (alloc v s)) j ≡ (if text_eq v.name j then some v else view s j)
view-file s v j wf = view-upsert (alloc v s) s.next j ∙ rw (heap-alloc v s, view-alloc s wf v j)

pub file-IsWellFormed :
    (s : Store) (v : Sandbox) → IsWellFormed s → IsWellFormed (upsert s.next (alloc v s))
file-IsWellFormed s v wf =
    upsert-IsWellFormed (alloc v s) (alloc-IsWellFormed s wf v) s.next (unfold alloc in omega arith)

pub sync_pod-IsWellFormed :
    (env : SyncEnv) (pod : Pod) (acc : Controller × ℕ)
    → IsWellFormed acc.0.store
    → IsWellFormed (sync_pod env pod acc).0.store
unfolding sync_pod
sync_pod-IsWellFormed env pod (c, n) wf = file-IsWellFormed c.store _ wf

view-sync_pod :
    (env : SyncEnv) (pod : Pod) (acc : Controller × ℕ) (j : Text)
    → IsWellFormed acc.0.store
    → view (sync_pod env pod acc).0.store j ≡ (
        if text_eq pod.name j
        then some (synced_sandbox env pod (view acc.0.store pod.name))
        else view acc.0.store j)
unfolding sync_pod
view-sync_pod env pod (c, n) j wf =
    view-file c.store (synced_sandbox env pod (view c.store pod.name)) j wf
    ∙ ap
        (λ n.
          if text_eq n j
          then some (synced_sandbox env pod (view c.store pod.name))
          else view c.store j)
        (name-synced env pod (view c.store pod.name))

-- What one pod makes of one name's entry, with no heap and no map.
unfoldable pub after_pod : SyncEnv → Pod → Text → Option Sandbox → Option Sandbox
after_pod env pod j o =
    if not (is_deleted pod) && text_eq pod.name j then some (synced_sandbox env pod o) else o

pub sync_round-IsWellFormed :
    (env : SyncEnv) (pod : Pod) (acc : Controller × ℕ)
    → IsWellFormed acc.0.store
    → IsWellFormed (sync_round env pod acc).0.store
unfolding sync_round
sync_round-IsWellFormed env pod acc wf = elim (Bool-cases (is_deleted pod)) [
  | inl e ↦ rw (e, sync_round) wf
  | inr e ↦ rw (e, sync_round) (sync_pod-IsWellFormed env pod acc wf)
]

pub view-sync_round :
    (env : SyncEnv) (pod : Pod) (acc : Controller × ℕ) (j : Text)
    → IsWellFormed acc.0.store
    → view (sync_round env pod acc).0.store j ≡ after_pod env pod j (view acc.0.store j)
unfolding sync_round after_pod
view-sync_round env pod acc j wf =
    ground (arith, view-sync_pod env pod acc j wf, text_eq_iff pod.name j)

unfoldable pub after_pods : SyncEnv → List Pod → Text → Option Sandbox → Option Sandbox
after_pods env [] j o = o
after_pods env (pod ∷ pods) j o = after_pods env pods j (after_pod env pod j o)

pub sync_pods-IsWellFormed :
    (env : SyncEnv) (pods : List Pod) (acc : Controller × ℕ)
    → IsWellFormed acc.0.store
    → IsWellFormed (sync_pods env pods acc).0.store
unfolding sync_pods
sync_pods-IsWellFormed env [] acc wf = wf
sync_pods-IsWellFormed env (pod ∷ pods) acc wf =
    sync_pods-IsWellFormed env pods (sync_round env pod acc)
      (sync_round-IsWellFormed env pod acc wf)

pub view-sync_pods :
    (env : SyncEnv) (pods : List Pod) (acc : Controller × ℕ) (j : Text)
    → IsWellFormed acc.0.store
    → view (sync_pods env pods acc).0.store j ≡ after_pods env pods j (view acc.0.store j)
unfolding sync_pods after_pods
view-sync_pods env [] acc j wf = refl
view-sync_pods env (pod ∷ pods) acc j wf =
    view-sync_pods env pods (sync_round env pod acc) j (sync_round-IsWellFormed env pod acc wf)
    ∙ ap (after_pods env pods j) (view-sync_round env pod acc j wf)

view-record :
    (now : Time) (n : ℕ) (s : Store) (j : Text) → view (record_sync_success now n s) j ≡ view s j
unfolding record_sync_success view get
view-record now n s j = refl

module _ (env : SyncEnv) (pods : List Pod) (now : Time) (c : Controller) where
  pub sync_store-IsWellFormed :
      IsWellFormed c.store → IsWellFormed (sync_store env pods now c).store
  unfolding sync_store
  sync_store-IsWellFormed wf =
      record_sync_success-IsWellFormed _
        (prune-IsWellFormed _ (sync_pods-IsWellFormed env pods (c, 0) wf) (is_live pods)) now _

  -- The loop over the pods, Prune and RecordSyncSuccess together act on each name alone: a name
  -- that no listed pod bears, or only pods that are being deleted, leads to nothing afterwards,
  -- and any other to its entry as the pods of that name changed it, in the order of the list.
  pub view-sync_store :
      (j : Text)
      → IsWellFormed c.store
      → view (sync_store env pods now c).store j
        ≡ (if is_live pods j then after_pods env pods j (view c.store j) else none)
  unfolding sync_store
  view-sync_store j wf =
      let s = (sync_pods env pods (c, 0)).0.store in
      view-record now _ (prune (is_live pods) s).1 j
      ∙ view-prune s (is_live pods) j
      ∙ ap (λ o. if is_live pods j then o else none) (view-sync_pods env pods (c, 0) j wf)
