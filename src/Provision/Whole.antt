-- ===== src/Provision/Whole.antt =====
-- A whole provision request, with no other goroutine in between.
use gke_quick_prototype.Prelude.{
  ◌+◌, ◌≡◌, refl, sym, ap, ◌∙◌, Option, none, some, [], ◌∷◌, ◌++◌, arith, inl, inr, Bool-cases,
  if◌then◌else◌,
}
use gke_quick_prototype.Prelude.Text.{Text, text_eq, text_eq_iff}
use gke_quick_prototype.Clock.{Time}
use gke_quick_prototype.Store.{idle, provisioning, Ref, Sandbox, Store, assign, write, claim_idle}
use gke_quick_prototype.Store.Invariant.{IsWellFormed, claim_idle-IsWellFormed}
use gke_quick_prototype.Store.Views.{view}
use gke_quick_prototype.Store.Claim.{claim_idle_lem, claim_idle-some}
use gke_quick_prototype.Kube.{PodPatch, patch_pod}
use gke_quick_prototype.Controller.{Controller, kick, called}
use gke_quick_prototype.Rfc3339.{format_rfc3339}
use gke_quick_prototype.Provision.{
  ok, ProvisionEnv, requested_lifetime, expiry_of, claim_patch, claimed_sandbox, provision_rollback,
  provision_finish, provision_answered, provision_patch, provision_claim, provision_expiring,
  provision_lifetime, handle_provision,
}
use gke_quick_prototype.Provision.Outcomes.{view-provision_finish, view-provision_rollback}

-- The patch that detaches a pod, as the handler sends it for the claimed sandbox.
abbrev pub sent_patch : ProvisionEnv → PodPatch
sent_patch env = claim_patch (format_rfc3339 env.zone env.claimed_now)

abbrev pub answer : ProvisionEnv → Sandbox → Option Text
answer env sb = env.patch_answer sb.name (sent_patch env)

-- The controller as the patch is answered: the sandbox claimed, the call made.
abbrev pub awaiting : ProvisionEnv → Ref → Controller → Controller
awaiting env r c =
    called (patch_pod env.namespace (c.store.heap r).name (sent_patch env))
      (record c { store = (claim_idle c.store).1 })

heap-claim :
    (s : Store) (r : Ref)
    → (claim_idle s).0 ≡ some r
    → (claim_idle s).1.heap r ≡ record (s.heap r) { state = provisioning }
heap-claim s r e = rw (claim_idle-some s r e).1 (unfold write assign in ground arith)

restored : (sb : Sandbox) → sb.state ≡ idle → record sb { state = idle } ≡ sb
restored sb e = ground arith

calls-kick : (c : Controller) → ((kick c).calls ≡ c.calls) × ((kick c).instruments ≡ c.instruments)
unfolding kick
calls-kick c = (ground arith, ground arith)

rolled_back :
    (s : Store) (r : Ref) (j : Text)
    → IsWellFormed s
    → (claim_idle s).0 ≡ some r
    → (if text_eq (s.heap r).name j
        then some (record (s.heap r) { state = idle })
        else view (claim_idle s).1 j)
      ≡ view s j
rolled_back s r j wf e =
    let (was_idle, filed, after) = claim_idle_lem s wf r e in
    rw (after j) (
      rw (restored (s.heap r) was_idle) (elim (Bool-cases (text_eq (s.heap r).name j)) [
        | inl t ↦ rw t (sym filed ∙ ap (view s) ((text_eq_iff (s.heap r).name j).0 t))
        | inr t ↦ rw t refl
      ]))

claimed_view :
    (s : Store) (r : Ref) (j : Text) (v : Option Sandbox)
    → IsWellFormed s
    → (claim_idle s).0 ≡ some r
    → (if text_eq (s.heap r).name j then v else view (claim_idle s).1 j)
      ≡ (if text_eq (s.heap r).name j then v else view s j)
claimed_view s r j v wf e = ground (arith, (claim_idle_lem s wf r e).2 j)

module _ (env : ProvisionEnv) (lifetime : Text) (expires_at : Option Time) (c : Controller) where
  pub provision_claim-some :
      (r : Ref)
      → (claim_idle c.store).0 ≡ some r
      → provision_claim env lifetime expires_at c
        ≡ provision_answered env lifetime expires_at r
            (answer env (c.store.heap r))
            (awaiting env r c)
  unfolding provision_claim provision_patch
  provision_claim-some r e = rw (e, provision_patch) (rw (heap-claim c.store r e) refl)

  handle-claim :
      requested_lifetime env.request ≡ ok lifetime
      → expiry_of env lifetime ≡ ok expires_at
      → handle_provision env c ≡ provision_claim env lifetime expires_at c
  unfolding handle_provision provision_lifetime provision_expiring
  handle-claim p q = rw (p, provision_lifetime) (rw (q, provision_expiring) refl)

  module _ (r : Ref) (asked : requested_lifetime env.request ≡ ok lifetime)
      (expiring : expiry_of env lifetime ≡ ok expires_at)
      (claimed : (claim_idle c.store).0 ≡ some r) (wf : IsWellFormed c.store) where
    handle-answered :
        (o : Option Text)
        → answer env (c.store.heap r) ≡ o
        → handle_provision env c ≡ provision_answered env lifetime expires_at r o (awaiting env r c)
    handle-answered o e =
        handle-claim asked expiring
        ∙ provision_claim-some r claimed
        ∙ ap (λ a. provision_answered env lifetime expires_at r a (awaiting env r c)) e

    awaiting-IsWellFormed : IsWellFormed (awaiting env r c).store
    unfolding called
    awaiting-IsWellFormed = claim_idle-IsWellFormed c.store wf

    -- A provision request whose lifetime is accepted, which claims the sandbox at `r` from a
    -- well-formed store, and whose patch the API server refuses: the answer is 500 and every name
    -- leads to what it led to before, so the claimed sandbox is idle again. The one call made is
    -- the patch.
    pub handle_provision-failed :
        (e : Text)
        → answer env (c.store.heap r) ≡ some e
        → ((handle_provision env c).0.code ≡ 500)
          × ((j : Text) → view (handle_provision env c).1.store j ≡ view c.store j)
          × ((handle_provision env c).1.calls
              ≡ c.calls ++ patch_pod env.namespace (c.store.heap r).name (sent_patch env) ∷ [])
    handle_provision-failed e a = rw (handle-answered (some e) a) (
        unfold provision_answered provision_rollback called in
        (
          refl,
          λ j.
              view-provision_rollback env lifetime expires_at r e (awaiting env r c) j
                awaiting-IsWellFormed
              ∙ rw (heap-claim c.store r claimed) (rolled_back c.store r j wf claimed),
          refl,
        ))

    -- A provision request whose lifetime is accepted, which claims the sandbox at `r` from a
    -- well-formed store, and whose patch the API server accepts: the answer is 200. The claimed
    -- sandbox was idle; its name leads to it as provisioning, with the expiry, the lifetime and the
    -- time of the claim, and every other name to what it led to before. The one call made is the
    -- patch, and one claim is counted.
    pub handle_provision-claimed :
        answer env (c.store.heap r) ≡ none
        → ((handle_provision env c).0.code ≡ 200)
          × ((c.store.heap r).state ≡ idle)
          × ((j : Text)
              → view (handle_provision env c).1.store j ≡ (
                  if text_eq (c.store.heap r).name j
                  then some (
                      claimed_sandbox env lifetime expires_at
                        (record (c.store.heap r) { state = provisioning }))
                  else view c.store j))
          × ((handle_provision env c).1.calls
              ≡ c.calls ++ patch_pod env.namespace (c.store.heap r).name (sent_patch env) ∷ [])
          × ((handle_provision env c).1.instruments.claim_total ≡ c.instruments.claim_total + 1)
    handle_provision-claimed a = rw (handle-answered none a) (
        unfold provision_answered in
        (
          unfold provision_finish in refl,
          (claim_idle_lem c.store wf r claimed).0,
          λ j.
              view-provision_finish env lifetime expires_at r (awaiting env r c) j
                awaiting-IsWellFormed
              ∙ (unfold called in
                  rw (heap-claim c.store r claimed) (claimed_view c.store r j _ wf claimed)),
          (unfold provision_finish called in (calls-kick _).0),
          unfold provision_finish called in ap (λ i. i.claim_total) (calls-kick _).1,
        ))
