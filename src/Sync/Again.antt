-- ===== src/Sync/Again.antt =====
-- A second sync of an unchanged cluster.
use gke_quick_prototype.Prelude.{
  ◌+◌, Bool, true, false, not, ◌&&◌, ◌||◌, ◌≡◌, refl, ap, ◌∙◌, Option, none, some, List, [], ◌∷◌,
  arith, inl, inr, Bool-cases,
}
use gke_quick_prototype.Prelude.Text.{Text, text_eq_iff, text_eq_refl}
use gke_quick_prototype.Clock.{Time}
use gke_quick_prototype.Store.{Sandbox, is_idle, is_pending}
use gke_quick_prototype.Store.Invariant.{IsWellFormed}
use gke_quick_prototype.Store.Views.{view}
use gke_quick_prototype.Kube.{Pod}
use gke_quick_prototype.Controller.{Controller}
use gke_quick_prototype.Sync.{
  SyncEnv, fresh_sandbox, carry_over, note_detach, synced_sandbox, is_mismatch, is_active,
  is_newly_scheduled, is_deleted, is_live, sync_store,
}
use gke_quick_prototype.Sync.Loop.{sync_store-IsWellFormed}
use gke_quick_prototype.Sync.Unique.{IsUnique, pod_of, synced, view-sync_store-synced}
use gke_quick_prototype.Sync.Counted.{
  is_back, is_news, count_live, counted-zero, sync_store-counted,
}

is_live-pod_of :
    (pods : List Pod) (j : Text) (pod : Pod) → pod_of pods j ≡ some pod → is_live pods j ≡ true
unfolding pod_of is_live
is_live-pod_of [] j pod e = ground arith
is_live-pod_of (p ∷ pods) j pod e = ground (arith, e, is_live-pod_of pods j pod)

module _ (p : Pod → Option Sandbox → Bool) (f : Text → Option Sandbox) where
  abbrev Never : List Pod → Type 0
  Never pods = (j : Text) (pod : Pod) → pod_of pods j ≡ some pod → p pod (f j) ≡ false

  Never-tail :
      (pod : Pod) (pods : List Pod)
      → is_live pods pod.name ≡ false
      → Never (pod ∷ pods)
      → Never pods
  unfolding pod_of
  Never-tail pod pods apart h j q e =
      h j q (ground (arith, e, apart, is_live-pod_of pods j q e, text_eq_iff pod.name j))

  Never-head :
      (pod : Pod) (pods : List Pod)
      → Never (pod ∷ pods)
      → (not (is_deleted pod) && p pod (f pod.name)) ≡ false
  unfolding pod_of
  Never-head pod pods h = elim (Bool-cases (is_deleted pod)) [
    | inl d ↦ rw d refl
    | inr d ↦ rw (d, h pod.name pod (rw (d, text_eq_refl pod.name) refl)) refl
  ]

  count_live-Never : (pods : List Pod) → IsUnique pods → Never pods → count_live p f pods ≡ 0
  unfolding count_live
  count_live-Never [] u h = refl
  count_live-Never (pod ∷ pods) (apart, u) h =
      rw (Never-head pod pods h)
        (ap (λ n. 0 + n) (count_live-Never pods u (Never-tail pod pods apart h)))

-- The sandbox agrees with the pod on all that is not carried over.
abbrev IsFresh : SyncEnv → Pod → Sandbox → Type 0
IsFresh env pod sb = carry_over (some sb) (fresh_sandbox env pod) ≡ sb

carry_over-IsFresh :
    (env : SyncEnv) (pod : Pod) (o : Option Sandbox)
    → IsFresh env pod (carry_over o (fresh_sandbox env pod))
unfolding carry_over fresh_sandbox
carry_over-IsFresh env pod none = refl
carry_over-IsFresh env pod (some old) = refl

set_detached-IsFresh :
    (env : SyncEnv) (pod : Pod) (sb : Sandbox) (d : Option Time) (b : Bool)
    → IsFresh env pod sb
    → IsFresh env pod (record sb { detached_at = d; ready_observed = b })
unfolding carry_over fresh_sandbox
set_detached-IsFresh env pod sb d b h =
    ap {A = Sandbox} {B = Sandbox} (λ s. record s { detached_at = d; ready_observed = b }) h

set_observed-IsFresh :
    (env : SyncEnv) (pod : Pod) (sb : Sandbox)
    → IsFresh env pod sb
    → IsFresh env pod (record sb { schedule_observed = true })
unfolding carry_over fresh_sandbox
set_observed-IsFresh env pod sb h =
    ap {A = Sandbox} {B = Sandbox} (λ s. record s { schedule_observed = true }) h

note_detach-IsFresh :
    (env : SyncEnv) (pod : Pod) (o : Option Sandbox) (sb : Sandbox)
    → IsFresh env pod sb
    → IsFresh env pod (note_detach env pod o sb)
unfolding note_detach
note_detach-IsFresh env pod none sb h = elim (Bool-cases (is_active sb.state)) [
  | inl a ↦ rw a (set_detached-IsFresh env pod sb _ true h)
  | inr a ↦ rw a h
]
note_detach-IsFresh env pod (some old) sb h =
    elim (Bool-cases (is_active sb.state && (is_idle old.state || is_pending old.state))) [
      | inl a ↦ rw a (set_detached-IsFresh env pod sb _ sb.ready_observed h)
      | inr a ↦ rw a h
    ]

synced-IsFresh :
    (env : SyncEnv) (pod : Pod) (o : Option Sandbox) → IsFresh env pod (synced_sandbox env pod o)
unfolding synced_sandbox
synced-IsFresh env pod o =
    let sb = note_detach env pod o (carry_over o (fresh_sandbox env pod)) in
    let h =
      note_detach-IsFresh env pod o (carry_over o (fresh_sandbox env pod))
        (carry_over-IsFresh env pod o) in
    elim (Bool-cases (is_newly_scheduled sb)) [
      | inl n ↦ rw n (set_observed-IsFresh env pod sb h)
      | inr n ↦ rw n h
    ]

note_detach-again :
    (env : SyncEnv) (pod : Pod) (sb : Sandbox) → note_detach env pod (some sb) sb ≡ sb
unfolding note_detach
note_detach-again env pod sb = ground arith

settled :
    (env : SyncEnv) (pod : Pod) (o : Option Sandbox)
    → is_newly_scheduled (synced_sandbox env pod o) ≡ false
unfolding synced_sandbox is_newly_scheduled
settled env pod o = ground arith

fresh_sandbox-same :
    (env env' : SyncEnv) (pod : Pod)
    → env'.metrics_map ≡ env.metrics_map
    → fresh_sandbox env' pod ≡ fresh_sandbox env pod
unfolding fresh_sandbox
fresh_sandbox-same env env' pod m = rw m refl

resynced :
    (env : SyncEnv) (pod : Pod) (sb : Sandbox)
    → IsFresh env pod sb
    → is_newly_scheduled sb ≡ false
    → synced_sandbox env pod (some sb) ≡ sb
unfolding synced_sandbox
resynced env pod sb h n = rw (h, note_detach-again env pod sb, n) refl

-- What a sync has made of an entry, the next one leaves.
synced_sandbox-again :
    (env env' : SyncEnv) (pod : Pod) (o : Option Sandbox)
    → env'.metrics_map ≡ env.metrics_map
    → synced_sandbox env' pod (some (synced_sandbox env pod o)) ≡ synced_sandbox env pod o
synced_sandbox-again env env' pod o m =
    resynced env' pod (synced_sandbox env pod o)
      (rw (fresh_sandbox-same env env' pod m) (synced-IsFresh env pod o)) (settled env pod o)

is_back-synced :
    (env : SyncEnv) (pod : Pod) (o : Option Sandbox)
    → is_back pod (some (synced_sandbox env pod o)) ≡ false
unfolding synced_sandbox note_detach carry_over fresh_sandbox is_mismatch
is_back-synced env pod none = ground arith
is_back-synced env pod (some old) = ground arith

is_news-synced :
    (env : SyncEnv) (pod : Pod) (o : Option Sandbox)
    → is_news pod (some (synced_sandbox env pod o)) ≡ false
unfolding synced_sandbox note_detach carry_over fresh_sandbox is_newly_scheduled
is_news-synced env pod none = ground arith
is_news-synced env pod (some old) = ground arith

module _ (env env' : SyncEnv) (pods : List Pod) (now now' : Time) (c : Controller)
    (wf : IsWellFormed c.store) (u : IsUnique pods) where
  abbrev first : Controller
  first = sync_store env pods now c

  first-IsWellFormed : IsWellFormed first.store
  first-IsWellFormed = sync_store-IsWellFormed env pods now c wf

  entry :
      (j : Text) (pod : Pod)
      → pod_of pods j ≡ some pod
      → view first.store j ≡ some (synced_sandbox env pod (view c.store j))
  entry j pod e = view-sync_store-synced env pods now c j wf u ∙ rw e refl

  nothing_back : count_live is_back (view first.store) pods ≡ 0
  nothing_back =
      count_live-Never is_back (view first.store) pods u
        (λ j pod e. rw (entry j pod e) (is_back-synced env pod (view c.store j)))

  no_news : count_live is_news (view first.store) pods ≡ 0
  no_news =
      count_live-Never is_news (view first.store) pods u
        (λ j pod e. rw (entry j pod e) (is_news-synced env pod (view c.store j)))

  synced-again :
      (o : Option Pod) (s : Option Sandbox)
      → env'.metrics_map ≡ env.metrics_map
      → synced env' o (synced env o s) ≡ synced env o s
  synced-again none s m = refl
  synced-again (some pod) s m = ap some (synced_sandbox-again env env' pod s m)

  -- Two syncs of a well-formed store, one after the other, with the same listed pods, of different
  -- names, and the same metrics, at any readings of the clock: the second one leaves every entry and
  -- all instruments as the first one left them, so nothing is measured twice, and finds no mismatch.
  pub sync_store-again :
      env'.metrics_map ≡ env.metrics_map
      → let second = sync_store env' pods now' first in
        ((j : Text) → view second.store j ≡ view first.store j)
        × (second.instruments ≡ first.instruments)
        × (second.store.mismatch_count ≡ 0)
  sync_store-again m =
      let (seen, n) = sync_store-counted env' pods now' first first-IsWellFormed u in
      (
        λ j.
            view-sync_store-synced env' pods now' first j first-IsWellFormed u
            ∙ rw (view-sync_store-synced env pods now c j wf u)
                (synced-again (pod_of pods j) (view c.store j) m),
        seen ∙ counted-zero env' (view first.store) pods first.instruments nothing_back no_news,
        n ∙ nothing_back,
      )
