-- ===== src/Provision/Outcomes.antt =====
-- What a claim does on each of its ways out, when no other goroutine runs in between.
use gke_quick_prototype.Prelude.{
  ◌<◌, ◌≡◌, ◌≢◌, refl, ap, ◌∙◌, Option, none, some, [], arith, inl, inr, Bool-cases, if◌then◌else◌,
}
use gke_quick_prototype.Prelude.Text.{Text, codes, text_eq, text_eq_iff}
use gke_quick_prototype.Clock.{Time}
use gke_quick_prototype.Store.{idle, Ref, Sandbox, Store, assign, write, upsert, get, claim_idle}
use gke_quick_prototype.Store.Invariant.{
  IsWellFormed, write-IsWellFormed, upsert-IsWellFormed, get-Filed,
}
use gke_quick_prototype.Store.Views.{deref, view, view-upsert}
use gke_quick_prototype.Store.Claim.{claim_idle-stays}
use gke_quick_prototype.Controller.{Controller, kick}
use gke_quick_prototype.Http.{problem}
use gke_quick_prototype.Provision.{
  ProvisionEnv, claimed_sandbox, provision_rollback, provision_finish, provision_patch,
  provision_claim,
}

pub store-kick : (c : Controller) → (kick c).store ≡ c.store
unfolding kick
store-kick c = ground arith

deref-other :
    (h : Ref → Sandbox) (r : Ref) (v : Sandbox) (j : Text) (o : Option Ref)
    → ((q : Ref) → o ≡ some q → (h q).name ≡ j)
    → (h r).name ≢ j
    → deref (assign r v h) o ≡ deref h o
unfolding assign
deref-other h r v j none f n = refl
deref-other h r v j (some q) f n = ground (arith, f q refl)

heap-write : (s : Store) (r : Ref) (v : Sandbox) → (write r v s).heap r ≡ v
unfolding write assign
heap-write s r v = ground arith

view-write_other :
    (s : Store) (r : Ref) (v : Sandbox) (j : Text)
    → IsWellFormed s
    → (s.heap r).name ≢ j
    → view (write r v s) j ≡ view s j
unfolding view write get
view-write_other s r v j wf n =
    deref-other s.heap r v j (get j s) (λ q e. (get-Filed s wf j q e).1) n

-- A write through a pointer that is then filed under its name: the name leads to what was written,
-- and no other name notices, whether or not the pointer was still filed.
pub view-refile :
    (s : Store) (r : Ref) (v : Sandbox) (j : Text)
    → IsWellFormed s
    → v.name ≡ (s.heap r).name
    → view (upsert r (write r v s)) j ≡ (if text_eq v.name j then some v else view s j)
view-refile s r v j wf e =
    view-upsert (write r v s) r j
    ∙ rw (heap-write s r v) (elim (Bool-cases (text_eq v.name j)) [
      | inl t ↦ rw t
      | inr t ↦ rw t (view-write_other s r v j wf (ground (arith, text_eq_iff v.name j)))
    ])

pub refile-IsWellFormed :
    (s : Store) (r : Ref) (v : Sandbox)
    → IsWellFormed s
    → r < s.next
    → v.name ≡ (s.heap r).name
    → IsWellFormed (upsert r (write r v s))
refile-IsWellFormed s r v wf b e =
    upsert-IsWellFormed (write r v s) (write-IsWellFormed s wf r v e) r (unfold write in b)

module _ (env : ProvisionEnv) (lifetime : Text) (expires_at : Option Time) where
  -- Whatever well-formed store the end of a successful claim meets, it files the claimed object
  -- under the object's name, with the expiry and the time of the claim, and leaves every other name
  -- as it is.
  pub view-provision_finish :
      (r : Ref) (c : Controller) (j : Text)
      → IsWellFormed c.store
      → view (provision_finish env lifetime expires_at r c).1.store j ≡ (
          if text_eq (c.store.heap r).name j
          then some (claimed_sandbox env lifetime expires_at (c.store.heap r))
          else view c.store j)
  unfolding provision_finish claimed_sandbox
  view-provision_finish r c j wf =
      ap (λ s. view s j) (store-kick _)
      ∙ view-refile c.store r (claimed_sandbox env lifetime expires_at (c.store.heap r)) j wf refl

  pub view-provision_rollback :
      (r : Ref) (e : Text) (c : Controller) (j : Text)
      → IsWellFormed c.store
      → view (provision_rollback r e c).1.store j ≡ (
          if text_eq (c.store.heap r).name j
          then some (record (c.store.heap r) { state = idle })
          else view c.store j)
  unfolding provision_rollback
  view-provision_rollback r e c j wf =
      view-refile c.store r (record (c.store.heap r) { state = idle }) j wf refl

  -- Without an idle sandbox the answer is 503, and nothing changes.
  pub provision_claim-none :
      (c : Controller)
      → (claim_idle c.store).0 ≡ none
      → provision_claim env lifetime expires_at c
        ≡ (record { code = 503; body = problem (codes "no idle sandboxes available") [] }, c)
  unfolding provision_claim provision_patch
  provision_claim-none c e = rw (e, provision_patch) (rw (claim_idle-stays c.store e).0 refl)
