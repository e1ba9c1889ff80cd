-- ===== src/Store/Refines.antt =====
-- The store refines its abstract specification: a map from names to sandboxes, on which each method
-- may do what the specification allows.
use gke_quick_prototype.Prelude.{
  ◌≡◌, refl, Bool, ◌⊎◌, inl, inr, Option, none, some, Option-cases, List, [], ◌∷◌, if◌then◌else◌,
}
use gke_quick_prototype.Prelude.Text.{Text, text_eq}
use gke_quick_prototype.Store.{
  Sandbox, Store, idle, provisioning, alloc, upsert, remove, prune, claim_idle, reset_observations,
}
use gke_quick_prototype.Store.Invariant.{
  IsWellFormed, remove-IsWellFormed, prune-IsWellFormed, claim_idle-IsWellFormed,
  reset_observations-IsWellFormed,
}
use gke_quick_prototype.Store.Views.{view, view-remove, view-prune}
use gke_quick_prototype.Store.Claim.{claim_idle_lem, claim_idle-none, claim_idle-stays}
use gke_quick_prototype.Store.Reset.{reset_view, reset_observations_lem}
use gke_quick_prototype.Sync.Loop.{view-file, file-IsWellFormed}

-- The methods that change the map or a sandbox in it. Upsert files a sandbox that has just been made.
pub data Method : Type 0 where
  files : Sandbox → Method
  removes : Text → Method
  prunes : (Text → Bool) → Method
  claims resets : Method

unfoldable pub call : Method → Store → Store
call (files v) s = upsert s.next (alloc v s)
call (removes name) s = remove name s
call (prunes live) s = (prune live s).1
call claims s = (claim_idle s).1
call resets s = reset_observations s

unfoldable pub call_all : List Method → Store → Store
call_all [] s = s
call_all (m ∷ ms) s = call_all ms (call m s)

abbrev pub Pool : Type 0
Pool = Text → Option Sandbox

abbrev pub Claimed : Pool → Pool → Text × Sandbox → Type 0
Claimed f g (name, sb) =
    (f name ≡ some sb)
    × (sb.state ≡ idle)
    × ((j : Text)
        → g j ≡ (if text_eq name j then some (record sb { state = provisioning }) else f j))

abbrev pub NoneIdle : Pool → Type 0
NoneIdle f = (name : Text) (sb : Sandbox) → f name ≡ some sb → ¬ (sb.state ≡ idle)

-- What a method may do to the pool. Which of the idle sandboxes a claim takes is left open.
abbrev pub Allowed : Method → Pool → Pool → Type 0
Allowed (files v) f g = (j : Text) → g j ≡ (if text_eq v.name j then some v else f j)
Allowed (removes name) f g = (j : Text) → g j ≡ (if text_eq name j then none else f j)
Allowed (prunes live) f g = (j : Text) → g j ≡ (if live j then f j else none)
Allowed claims f g =
    ((e : Text × Sandbox) × Claimed f g e) ⊎ (NoneIdle f × ((j : Text) → g j ≡ f j))
Allowed resets f g = (j : Text) → g j ≡ reset_view (f j)

-- One after the other.
abbrev pub AllowedRun : List Method → Pool → Pool → Type 0
AllowedRun [] f g = (j : Text) → g j ≡ f j
AllowedRun (m ∷ ms) f g = (mid : Pool) × Allowed m f mid × AllowedRun ms mid g

call-IsWellFormed : (m : Method) (s : Store) → IsWellFormed s → IsWellFormed (call m s)
unfolding call
call-IsWellFormed (files v) s wf = file-IsWellFormed s v wf
call-IsWellFormed (removes name) s wf = remove-IsWellFormed s wf name
call-IsWellFormed (prunes live) s wf = prune-IsWellFormed s wf live
call-IsWellFormed claims s wf = claim_idle-IsWellFormed s wf
call-IsWellFormed resets s wf = reset_observations-IsWellFormed s wf

claims-Allowed : (s : Store) → IsWellFormed s → Allowed claims (view s) (view (claim_idle s).1)
claims-Allowed s wf = elim (Option-cases (claim_idle s).0) [
  | inl e ↦ inr ((claim_idle-none s wf).0 e, λ j. rw (claim_idle-stays s e).0 refl)
  | inr (r, e) ↦
      let (was_idle, filed, after) = claim_idle_lem s wf r e in
      inl (((s.heap r).name, s.heap r), (filed, was_idle, after))
]

call-Allowed : (m : Method) (s : Store) → IsWellFormed s → Allowed m (view s) (view (call m s))
unfolding call
call-Allowed (files v) s wf = λ j. view-file s v j wf
call-Allowed (removes name) s wf = λ j. view-remove s name j
call-Allowed (prunes live) s wf = λ j. view-prune s live j
call-Allowed claims s wf = claims-Allowed s wf
call-Allowed resets s wf = λ j. reset_observations_lem s j

-- From a well-formed store any sequence of calls of Upsert (of a new sandbox), Remove, Prune,
-- ClaimIdle and ResetObservations is a run of the specification on the map from names to sandboxes:
-- step by step each name leads to what the method allows, where a claim makes one idle sandbox
-- provisioning, or changes nothing if none is idle.
pub call_all-AllowedRun :
    (ms : List Method) (s : Store) → IsWellFormed s → AllowedRun ms (view s) (view (call_all ms s))
unfolding call_all
call_all-AllowedRun [] s wf = λ j. refl
call_all-AllowedRun (m ∷ ms) s wf = (
  view (call m s),
  call-Allowed m s wf,
  call_all-AllowedRun ms (call m s) (call-IsWellFormed m s wf),
)
