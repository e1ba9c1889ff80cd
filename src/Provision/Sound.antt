-- ===== src/Provision/Sound.antt =====
-- The store stays well formed under a provision request, whatever the API server answers.
use gke_quick_prototype.Prelude.{◌<◌, ◌≡◌, refl, Option, none, some, inl, inr, Option-cases}
use gke_quick_prototype.Prelude.Text.{Text}
use gke_quick_prototype.Clock.{Time}
use gke_quick_prototype.Store.{Ref, write, claim_idle}
use gke_quick_prototype.Store.Invariant.{IsWellFormed, get-Filed, claim_idle-IsWellFormed}
use gke_quick_prototype.Store.Claim.{claimed_entry, claim_idle-some}
use gke_quick_prototype.Controller.{Controller, kick, called}
use gke_quick_prototype.Provision.{
  Result, ok, err, ProvisionEnv, claimed_sandbox, provision_rollback, provision_finish,
  provision_answered, provision_claim, provision_expiring, provision_lifetime, handle_provision,
}
use gke_quick_prototype.Provision.Outcomes.{store-kick, refile-IsWellFormed, provision_claim-none}
use gke_quick_prototype.Provision.Whole.{awaiting, provision_claim-some}

abbrev pub IsSound : Controller → Type 0
IsSound c = IsWellFormed c.store

pub kick-IsSound : (c : Controller) → IsSound c → IsSound (kick c)
kick-IsSound c wf = rw (store-kick c) wf

module _ (env : ProvisionEnv) where
  module _ (lifetime : Text) (expires_at : Option Time) where
    provision_answered-IsSound :
        (r : Ref) (o : Option Text) (c : Controller)
        → r < c.store.next
        → IsSound c
        → IsSound (provision_answered env lifetime expires_at r o c).1
    unfolding provision_answered provision_rollback provision_finish claimed_sandbox
    provision_answered-IsSound r none c b wf =
        kick-IsSound _ (refile-IsWellFormed c.store r _ wf b refl)
    provision_answered-IsSound r (some e) c b wf = refile-IsWellFormed c.store r _ wf b refl

    awaiting-next :
        (r : Ref) (c : Controller)
        → IsSound c
        → (claim_idle c.store).0 ≡ some r
        → r < (awaiting env r c).store.next
    unfolding called
    awaiting-next r c wf e =
        rw (claim_idle-some c.store r e).1
          (unfold write in (get-Filed c.store wf _ r (claimed_entry c.store wf r e).1).0)

    provision_claim-IsSound :
        (c : Controller) → IsSound c → IsSound (provision_claim env lifetime expires_at c).1
    provision_claim-IsSound c wf = elim (Option-cases (claim_idle c.store).0) [
      | inl e ↦ rw (provision_claim-none env lifetime expires_at c e) wf
      | inr (r, e) ↦ rw (provision_claim-some env lifetime expires_at c r e) (
          provision_answered-IsSound r _ (awaiting env r c) (awaiting-next r c wf e)
            (unfold called in claim_idle-IsWellFormed c.store wf))
    ]

  provision_expiring-IsSound :
      (lifetime : Text) (a : Result (Option Time)) (c : Controller)
      → IsSound c
      → IsSound (provision_expiring env lifetime a c).1
  unfolding provision_expiring
  provision_expiring-IsSound lifetime (err e) c wf = wf
  provision_expiring-IsSound lifetime (ok expires_at) c wf =
      provision_claim-IsSound lifetime expires_at c wf

  provision_lifetime-IsSound :
      (a : Result Text) (c : Controller) → IsSound c → IsSound (provision_lifetime env a c).1
  unfolding provision_lifetime
  provision_lifetime-IsSound (err e) c wf = wf
  provision_lifetime-IsSound (ok lifetime) c wf = provision_expiring-IsSound lifetime _ c wf

  pub handle_provision-IsSound : (c : Controller) → IsSound c → IsSound (handle_provision env c).1
  unfolding handle_provision
  handle_provision-IsSound c wf = provision_lifetime-IsSound _ c wf
