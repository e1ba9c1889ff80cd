-- ===== src/Store/Reset.antt =====
-- ResetObservations: a walk over the map that writes through its pointers.
use gke_quick_prototype.Prelude.{
  Bool, false, ◌≡◌, refl, ap, ◌∙◌, Option, none, some, [], ◌∷◌, arith,
}
use gke_quick_prototype.Prelude.Text.{Text}
use gke_quick_prototype.Prelude.Map.{Map, lookup}
use gke_quick_prototype.Store.{
  State, idle, pending, provisioning, active, failed, Ref, Sandbox, Store, assign, get,
  reset_sandbox, reset_all, reset_observations,
}
use gke_quick_prototype.Store.Views.{deref, view}

-- What a reset leaves of the flag for readiness.
abbrev pub ready_after : State → Bool → Bool
ready_after idle ready = false
ready_after pending ready = false
ready_after provisioning ready = ready
ready_after active ready = ready
ready_after failed ready = ready

abbrev pub as_reset : Sandbox → Sandbox
as_reset sb = record sb {
  schedule_observed = false;
  ready_observed = ready_after sb.state sb.ready_observed;
}

reset_sandbox_lem : (sb : Sandbox) → reset_sandbox sb ≡ as_reset sb
unfolding reset_sandbox
reset_sandbox_lem sb = ground arith

reset_sandbox_idem : (sb : Sandbox) → reset_sandbox (reset_sandbox sb) ≡ reset_sandbox sb
unfolding reset_sandbox
reset_sandbox_idem sb = ground arith

-- A cell that is reset already stays as it is.
reset_all_fixed :
    (m : Map Ref) (h : Ref → Sandbox) (q : Ref) → reset_sandbox (h q) ≡ h q → reset_all m h q ≡ h q
unfolding reset_all assign
reset_all_fixed [] h q e = refl
reset_all_fixed ((n, r) ∷ m) h q e =
    ground (arith, reset_all_fixed m (assign r (reset_sandbox (h r)) h) q)

reset_all_filed :
    (m : Map Ref) (h : Ref → Sandbox) (k : Text) (q : Ref)
    → lookup k m ≡ some q
    → reset_all m h q ≡ reset_sandbox (h q)
unfolding reset_all lookup assign
reset_all_filed [] h k q e = cc
reset_all_filed ((n, r) ∷ m) h k q e = ground (
  arith,
  reset_sandbox_idem (h q),
  reset_all_fixed m (assign r (reset_sandbox (h r)) h) q,
  reset_all_filed m (assign r (reset_sandbox (h r)) h) k q,
)

abbrev pub reset_view : Option Sandbox → Option Sandbox
reset_view none = none
reset_view (some sb) = some (as_reset sb)

deref-reset :
    (m : Map Ref) (h : Ref → Sandbox) (k : Text) (o : Option Ref)
    → lookup k m ≡ o
    → deref (reset_all m h) o ≡ reset_view (deref h o)
deref-reset m h k none e = refl
deref-reset m h k (some q) e = ap some (reset_all_filed m h k q e ∙ reset_sandbox_lem (h q))

-- Under every name the schedule flag is cleared, and the ready flag too if the sandbox is idle or
-- pending, while one that is provisioning, active or failed keeps it; the names and all other fields
-- stay, however the pointers are shared.
pub reset_observations_lem :
    (s : Store) (j : Text) → view (reset_observations s) j ≡ reset_view (view s j)
unfolding view get reset_observations
reset_observations_lem s j = deref-reset s.sandboxes s.heap j (lookup j s.sandboxes) refl
