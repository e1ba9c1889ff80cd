-- ===== src/Provision/Expiry.antt =====
-- The lifetime of a claim.
use gke_quick_prototype.Prelude.{
  ◌*◌, ◌≡◌, ◌↔◌, refl, false, Option, none, some, arith, inl, inr, Bool-cases,
}
use gke_quick_prototype.Prelude.Int.{pos, ◌≤ℤ◌}
use gke_quick_prototype.Prelude.Text.{Text, codes, text_eq, text_eq_iff}
use gke_quick_prototype.Clock.{Time, hour, add}
use gke_quick_prototype.Provision.{
  Result, ok, err, ProvisionEnv, parse_expiry, cap_expiry, expiry_of,
}

-- No claim lasts longer than two hours, except one without an expiry.
abbrev pub AtMost : Time → Option Time → Type 0
AtMost limit none = Unit
AtMost limit (some t) = t ≤ℤ limit

cap_expiry-le : (now t : Time) → cap_expiry now t ≤ℤ add now (pos (2 * hour))
unfolding cap_expiry
cap_expiry-le now t = ground arith

limited :
    (env : ProvisionEnv) (lifetime : Text) (r : Result Time) (o : Option Time)
    → text_eq lifetime (codes "unlimited") ≡ false
    → parse_expiry env lifetime ≡ r
    → expiry_of env lifetime ≡ ok o
    → (t : Time) × (r ≡ ok t) × (o ≡ some (cap_expiry env.cap_now t))
unfolding expiry_of
limited env lifetime (err e) o l p q = ground arith
limited env lifetime (ok t) o l p q = (t, refl, ground arith)

-- An accepted lifetime other than `unlimited` gives an expiry of two hours from now at most, and
-- exactly the lifetime `unlimited` gives none.
pub expiry_of_lem :
    (env : ProvisionEnv) (lifetime : Text) (o : Option Time)
    → expiry_of env lifetime ≡ ok o
    → AtMost (add env.cap_now (pos (2 * hour))) o × ((o ≡ none) ↔ (lifetime ≡ codes "unlimited"))
expiry_of_lem env lifetime o q = elim (Bool-cases (text_eq lifetime (codes "unlimited"))) [
  | inl u ↦
      let n : o ≡ none = unfold expiry_of in ground arith in
      rw n (tt, (λ _. (text_eq_iff lifetime (codes "unlimited")).0 u, λ _. refl))
  | inr l ↦
      let (t, parsed, capped) = limited env lifetime (parse_expiry env lifetime) o l refl q in
      rw capped (
        cap_expiry-le env.cap_now t,
        (λ e. cc, λ e. ground (arith, text_eq_iff lifetime (codes "unlimited"))),
      )
]
