-- ===== src/Sync/Counted.antt =====
-- What a sync counts, as a matter of the store and the pods that it starts from.
use gke_quick_prototype.Prelude.{
  ℕ, ◌+◌, Bool, true, false, not, ◌&&◌, ◌≡◌, refl, ap, ◌∙◌, Option, none, some, List, [], ◌∷◌,
  arith, inl, inr, Bool-cases, if◌then◌else◌,
}
use gke_quick_prototype.Prelude.Text.{Text, text_eq_iff, text_eq_refl}
use gke_quick_prototype.Clock.{Time}
use gke_quick_prototype.Store.{
  State, idle, active, provisioning, Sandbox, is_idle, record_sync_success,
}
use gke_quick_prototype.Store.Invariant.{IsWellFormed}
use gke_quick_prototype.Store.Views.{view}
use gke_quick_prototype.Kube.{Pod}
use gke_quick_prototype.Controller.{Controller, Instruments}
use gke_quick_prototype.PodState.{derive_state, is_pod_ready, pod_ready_duration}
use gke_quick_prototype.Sync.{
  SyncEnv, fresh_sandbox, carry_over, note_detach, is_mismatch, is_newly_scheduled, count_mismatch,
  count_scheduled, is_deleted, is_live, sync_pod, sync_round, sync_pods, sync_store,
}
use gke_quick_prototype.Sync.Loop.{after_pod, view-sync_round, sync_round-IsWellFormed}
use gke_quick_prototype.Sync.Unique.{IsUnique}

-- Idle where it was active or provisioning.
abbrev pub comes_back : State → State → Bool
comes_back active idle = true
comes_back provisioning idle = true
comes_back _ _ = false

-- The pod is back in the pool, and the entry of its name is handed out.
abbrev pub is_back : Pod → Option Sandbox → Bool
is_back pod none = false
is_back pod (some sb) = comes_back sb.state (derive_state pod)

is_mismatch_lem :
    (pod : Pod) (o : Option Sandbox) → is_mismatch o (derive_state pod) ≡ is_back pod o
unfolding is_mismatch
is_mismatch_lem pod none = refl
is_mismatch_lem pod (some sb) = ground arith

abbrev pub observed : Option Sandbox → Bool
observed none = false
observed (some sb) = sb.schedule_observed

-- The pod is ready in the pool, and its entry does not say so yet.
abbrev pub is_news : Pod → Option Sandbox → Bool
is_news pod o = is_idle (derive_state pod) && is_pod_ready pod && not (observed o)

newly_lem :
    (env : SyncEnv) (pod : Pod) (o : Option Sandbox)
    → is_newly_scheduled (note_detach env pod o (carry_over o (fresh_sandbox env pod)))
      ≡ is_news pod o
unfolding is_newly_scheduled note_detach carry_over fresh_sandbox
newly_lem env pod none = ground arith
newly_lem env pod (some old) = ground arith

same_state :
    (env : SyncEnv) (pod : Pod) (o : Option Sandbox)
    → (note_detach env pod o (carry_over o (fresh_sandbox env pod))).state ≡ derive_state pod
unfolding note_detach carry_over fresh_sandbox
same_state env pod none = ground arith
same_state env pod (some old) = ground arith

-- The instruments after the pods, each with the entry that `f` has of its name.
unfoldable pub counted : SyncEnv → (Text → Option Sandbox) → List Pod → Instruments → Instruments
counted env f [] i = i
counted env f (pod ∷ pods) i = counted env f pods (
    if is_deleted pod
    then i
    else count_scheduled (is_news pod (f pod.name)) (pod_ready_duration (env.pod_now pod.name) pod)
        (count_mismatch (is_back pod (f pod.name)) i))

-- The live pods for which this holds of their entry.
unfoldable pub count_live : (Pod → Option Sandbox → Bool) → (Text → Option Sandbox) → List Pod → ℕ
count_live p f [] = 0
count_live p f (pod ∷ pods) =
    (if not (is_deleted pod) && p pod (f pod.name) then 1 else 0) + count_live p f pods

abbrev Agree : List Pod → (Text → Option Sandbox) → (Text → Option Sandbox) → Type 0
Agree pods f g = (j : Text) → is_live pods j ≡ true → f j ≡ g j

Agree-tail :
    (pod : Pod) (pods : List Pod) (f g : Text → Option Sandbox)
    → Agree (pod ∷ pods) f g
    → Agree pods f g
unfolding is_live
Agree-tail pod pods f g h j l = h j (ground (arith, l))

Agree-head :
    (pod : Pod) (pods : List Pod) (f g : Text → Option Sandbox)
    → Agree (pod ∷ pods) f g
    → is_deleted pod ≡ false
    → f pod.name ≡ g pod.name
unfolding is_live
Agree-head pod pods f g h d = h pod.name (ground (arith, d, text_eq_refl pod.name))

counted-Agree :
    (env : SyncEnv) (pods : List Pod) (f g : Text → Option Sandbox) (i : Instruments)
    → Agree pods f g
    → counted env f pods i ≡ counted env g pods i
unfolding counted
counted-Agree env [] f g i h = refl
counted-Agree env (pod ∷ pods) f g i h = elim (Bool-cases (is_deleted pod)) [
  | inl d ↦ rw d (counted-Agree env pods f g i (Agree-tail pod pods f g h))
  | inr d ↦
      rw (d, Agree-head pod pods f g h d) (counted-Agree env pods f g _ (Agree-tail pod pods f g h))
]

count_live-Agree :
    (p : Pod → Option Sandbox → Bool) (pods : List Pod) (f g : Text → Option Sandbox)
    → Agree pods f g
    → count_live p f pods ≡ count_live p g pods
unfolding count_live
count_live-Agree p [] f g h = refl
count_live-Agree p (pod ∷ pods) f g h = elim (Bool-cases (is_deleted pod)) [
  | inl d ↦ rw d (ap (λ n. 0 + n) (count_live-Agree p pods f g (Agree-tail pod pods f g h)))
  | inr d ↦
      rw (d, Agree-head pod pods f g h d)
        (ap (λ n. (if p pod (g pod.name) then 1 else 0) + n)
          (count_live-Agree p pods f g (Agree-tail pod pods f g h)))
]

-- A pod changes no entry that a later pod asks for.
round-Agree :
    (env : SyncEnv) (pod : Pod) (pods : List Pod) (acc : Controller × ℕ)
    → IsWellFormed acc.0.store
    → is_live pods pod.name ≡ false
    → Agree pods (view (sync_round env pod acc).0.store) (view acc.0.store)
unfolding after_pod
round-Agree env pod pods acc wf h j l =
    view-sync_round env pod acc j wf ∙ ground (arith, h, l, text_eq_iff pod.name j)

round-counts :
    (env : SyncEnv) (pod : Pod) (acc : Controller × ℕ)
    → let f = view acc.0.store in
      ((sync_round env pod acc).0.instruments ≡ counted env f (pod ∷ []) acc.0.instruments)
      × ((sync_round env pod acc).1 ≡ acc.1 + count_live is_back f (pod ∷ []))
unfolding sync_round sync_pod counted count_live
round-counts env pod (c, n) = elim (Bool-cases (is_deleted pod)) [
  | inl d ↦ rw d (refl, omega arith)
  | inr d ↦
      rw
        (
          d,
          newly_lem env pod (view c.store pod.name),
          same_state env pod (view c.store pod.name),
          is_mismatch_lem pod (view c.store pod.name),
        )
        (refl, ground arith)
]

-- What the loop counts, it counts as of the entries that it starts from.
sync_pods-counts :
    (env : SyncEnv) (pods : List Pod) (acc : Controller × ℕ)
    → IsWellFormed acc.0.store
    → IsUnique pods
    → let f = view acc.0.store in
      ((sync_pods env pods acc).0.instruments ≡ counted env f pods acc.0.instruments)
      × ((sync_pods env pods acc).1 ≡ acc.1 + count_live is_back f pods)
unfolding sync_pods counted count_live
sync_pods-counts env [] acc wf u = (refl, omega arith)
sync_pods-counts env (pod ∷ pods) acc wf (apart, u) =
    let next = sync_round env pod acc in
    let (seen, n) = sync_pods-counts env pods next (sync_round-IsWellFormed env pod acc wf) u in
    let (seen', n') = round-counts env pod acc in
    let same = round-Agree env pod pods acc wf apart in
    let f = view acc.0.store in
    (
      seen
          ∙ counted-Agree env pods (view next.0.store) f next.0.instruments same
          ∙ ap (counted env f pods) seen',
      omega (arith, n, n', count_live-Agree is_back pods (view next.0.store) f same),
    )

counted_totals :
    (env : SyncEnv) (f : Text → Option Sandbox) (pods : List Pod) (i : Instruments)
    → ((counted env f pods i).sync_mismatch_total
        ≡ i.sync_mismatch_total + count_live is_back f pods)
      × ((counted env f pods i).scheduled_total ≡ i.scheduled_total + count_live is_news f pods)
unfolding counted count_live count_mismatch count_scheduled
counted_totals env f [] i = (omega arith, omega arith)
counted_totals env f (pod ∷ pods) i = ground (
  arith,
  counted_totals env f pods (
      if is_deleted pod
      then i
      else count_scheduled (is_news pod (f pod.name))
          (pod_ready_duration (env.pod_now pod.name) pod)
          (count_mismatch (is_back pod (f pod.name)) i)),
)

pub counted-zero :
    (env : SyncEnv) (f : Text → Option Sandbox) (pods : List Pod) (i : Instruments)
    → count_live is_back f pods ≡ 0
    → count_live is_news f pods ≡ 0
    → counted env f pods i ≡ i
unfolding counted count_live count_mismatch count_scheduled
counted-zero env f [] i b n = refl
counted-zero env f (pod ∷ pods) i b n =
    let seen =
      if is_deleted pod
      then i
      else count_scheduled (is_news pod (f pod.name))
          (pod_ready_duration (env.pod_now pod.name) pod)
          (count_mismatch (is_back pod (f pod.name)) i) in
    let unseen : seen ≡ i = ground (arith, b, n) in
    ap (counted env f pods) unseen
    ∙ counted-zero env f pods i (ground (arith, b)) (ground (arith, n))

module _ (env : SyncEnv) (pods : List Pod) (now : Time) (c : Controller) (wf : IsWellFormed c.store)
    (u : IsUnique pods) where
  pub sync_store-counted :
      ((sync_store env pods now c).instruments ≡ counted env (view c.store) pods c.instruments)
      × ((sync_store env pods now c).store.mismatch_count ≡ count_live is_back (view c.store) pods)
  unfolding sync_store record_sync_success
  sync_store-counted =
      let (seen, n) = sync_pods-counts env pods (c, 0) wf u in (seen, omega (arith, n))

  -- A sync of a well-formed store with listed pods of different names. The mismatch count that it
  -- leaves is the number of live pods that are idle though their entry was active or provisioning,
  -- and the counter of mismatches grows by that number. The counter of scheduled pods grows by the
  -- number of live pods that are idle and ready and whose entry, if there was one, had not been
  -- observed. All entries are those from before the sync.
  pub sync_store-counts :
      ((sync_store env pods now c).store.mismatch_count ≡ count_live is_back (view c.store) pods)
      × ((sync_store env pods now c).instruments.sync_mismatch_total
          ≡ c.instruments.sync_mismatch_total + count_live is_back (view c.store) pods)
      × ((sync_store env pods now c).instruments.scheduled_total
          ≡ c.instruments.scheduled_total + count_live is_news (view c.store) pods)
  sync_store-counts =
      let (seen, n) = sync_store-counted in
      let (mismatches, scheduled) = counted_totals env (view c.store) pods c.instruments in
      (
        n,
        ap (λ i. i.sync_mismatch_total) seen ∙ mismatches,
        ap (λ i. i.scheduled_total) seen ∙ scheduled,
      )
