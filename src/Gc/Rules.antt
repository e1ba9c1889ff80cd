-- ===== src/Gc/Rules.antt =====
-- Which sandboxes the collector takes.
use gke_quick_prototype.Prelude.{
  ◌+◌, ◌≤◌, ◌≡◌, ◌≢◌, ◌↔◌, ◌⊎◌, inl, inr, Option-cases, refl, false, Option, none, some, arith,
}
use gke_quick_prototype.Prelude.Int.{pos, ◌≤ℤ◌, pos_part, neg_part, ltb_ℤ, -ℤ_parts}
use gke_quick_prototype.Prelude.Text.{Text, codes, text_eq_iff}
use gke_quick_prototype.Clock.{Time, sub}
use gke_quick_prototype.Store.{State, idle, active, failed, Sandbox}
use gke_quick_prototype.Gc.{
  is_expired, is_exited, is_stale, outlives, gc_reason, max_unlimited_lifetime,
}

-- now.Sub(t) > 24h fails up to t + 24h, in spite of the saturation.
sub_within :
    (now t : Time)
    → (ltb_ℤ (pos max_unlimited_lifetime) (sub now t) ≡ false)
      ↔ (pos_part now + neg_part t ≤ pos_part t + neg_part now + max_unlimited_lifetime)
unfolding sub
sub_within now t = (λ h. ground (arith, -ℤ_parts now t), λ h. ground (arith, -ℤ_parts now t))

-- An active sandbox is within its lifetime: not past its expiry, or with no expiry not more than a
-- day after its detachment, if that is known.
abbrev pub Within : Time → Option Time → Option Time → Type 0
Within now (some t) d = now ≤ℤ t
Within now none none = Unit
Within now none (some d) =
    pos_part now + neg_part d ≤ pos_part d + neg_part now + max_unlimited_lifetime

abbrev pub InService : Text → Type 0
InService phase = (phase ≡ codes "Running") ⊎ (phase ≡ codes "Pending")

-- What the collector leaves alone.
abbrev pub IsSpared : Time → Sandbox → Type 0
IsSpared now sb =
    (sb.state ≢ failed)
    × (sb.state ≡ active → InService sb.phase × Within now sb.expires_at sb.detached_at)

Within-iff :
    (now : Time) (sb : Sandbox)
    → sb.state ≡ active
    → ((is_expired now sb ≡ false) × (is_stale now sb ≡ false))
      ↔ Within now sb.expires_at sb.detached_at
unfolding is_expired is_stale outlives
Within-iff now sb a = elim (Option-cases sb.expires_at) [
  | inl none_set ↦ elim (Option-cases sb.detached_at) [
    | inl unknown ↦ rw none_set (rw unknown (rw a (λ h. tt, λ w. (refl, refl))))
    | inr (d, known) ↦
        rw none_set
          (rw known (rw a (λ h. (sub_within now d).0 h.1, λ w. (refl, (sub_within now d).1 w))))
  ]
  | inr (t, set) ↦ rw set (rw a (λ h. ground arith, λ w. (ground arith, refl)))
]

InService-iff : (sb : Sandbox) → sb.state ≡ active → (is_exited sb ≡ false) ↔ InService sb.phase
unfolding is_exited
InService-iff sb a = (
  λ h.
      ground
        (arith, text_eq_iff sb.phase (codes "Running"), text_eq_iff sb.phase (codes "Pending")),
  λ h.
      ground
        (arith, text_eq_iff sb.phase (codes "Running"), text_eq_iff sb.phase (codes "Pending")),
)

spared_other :
    (now : Time) (sb : Sandbox)
    → sb.state ≢ active
    → (gc_reason now sb ≡ none) ↔ (sb.state ≢ failed)
unfolding gc_reason is_expired is_exited is_stale
spared_other now sb n = (λ h. ground arith, λ h. ground arith)

reason_parts :
    (now : Time) (sb : Sandbox)
    → sb.state ≡ active
    → (gc_reason now sb ≡ none)
      ↔ ((is_exited sb ≡ false) × ((is_expired now sb ≡ false) × (is_stale now sb ≡ false)))
unfolding gc_reason
reason_parts now sb a = (λ h. (ground arith, (ground arith, ground arith)), λ h. ground arith)

spared_active :
    (now : Time) (sb : Sandbox)
    → sb.state ≡ active
    → (gc_reason now sb ≡ none) ↔ (InService sb.phase × Within now sb.expires_at sb.detached_at)
spared_active now sb a =
    let parts = reason_parts now sb a in
    let life = Within-iff now sb a in
    let service = InService-iff sb a in
    (λ h. (service.0 (parts.0 h).0, life.0 (parts.0 h).1), λ h. parts.1 (service.1 h.0, life.1 h.1))

active-cases : (x : State) → (x ≡ active) ⊎ (x ≢ active)
active-cases active = inl refl
active-cases idle = inr λ e. cc
active-cases _ = inr λ e. cc

-- The collector spares a sandbox exactly if it has not failed and, where it is active, its pod runs
-- or is pending and it is within its lifetime: until its expiry, or where it has none, for a day
-- from its detachment, or without end where no detachment is known. In particular it spares what
-- is idle, pending or provisioning.
pub gc_reason-none : (now : Time) (sb : Sandbox) → (gc_reason now sb ≡ none) ↔ IsSpared now sb
gc_reason-none now sb = elim (active-cases sb.state) [
  | inl a ↦
      let both = spared_active now sb a in
      (λ h. ((λ f. ground arith), λ _. both.0 h), λ h. both.1 (h.1 a))
  | inr n ↦
      let other = spared_other now sb n in (λ h. (other.0 h, λ a. absurd (n a)), λ h. other.1 h.0)
]
