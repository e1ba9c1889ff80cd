-- ===== src/Probe/Pace.antt =====
-- How often the probe reports, and in whose name.
use gke_quick_prototype.Prelude.{
  ℕ, ◌+◌, ◌*◌, ◌≡◌, ◌≢◌, refl, sym, subst, false, Bool-cases, inl, inr, Option, none, some, List,
  [], ◌++◌, append-nil, All, length, arith, then_branch, else_branch,
}
use gke_quick_prototype.Prelude.Int.{ℤ, pos, ◌+ℤ◌, ◌-ℤ◌, ◌≤ℤ◌, ltb_ℤ, +ℤ_parts, -ℤ_parts}
use gke_quick_prototype.Prelude.Text.{Text}
use gke_quick_prototype.Clock.{Time, sub}
use gke_quick_prototype.Provision.{Result, ok, err}
use gke_quick_prototype.Monitoring.{
  MonitoringEnv, MetricsClient, TimeSeries, ProbeStatus, probing, write_probe_metric,
  new_metrics_client,
}
use gke_quick_prototype.Monitoring.Identity.{IsIdentified, new_metrics_client-IsIdentified}
use gke_quick_prototype.Probe.{metric_report_every, Round, ProbeState, progress}

-- The clock does not go back within a round.
abbrev pub Advances : Round → Type 0
Advances r = r.checked_at ≤ℤ r.reported_at

-- A series with this status that names its project and its pod.
pub record IsNamed (st : ProbeStatus) (t : TimeSeries) : Type 0 where
  pub same_status : t.status ≡ st
  pub has_project : t.project_id ≢ []
  pub has_pod : t.pod_name ≢ []

-- The client that `main` hands to the probe: nil where it could not be made.
abbrev pub usable : Result MetricsClient → Option MetricsClient
usable (ok mc) = some mc
usable (err e) = none

abbrev pub AllIdentified : Option MetricsClient → Type 0
AllIdentified none = Unit
AllIdentified (some mc) = IsIdentified mc

pub usable-AllIdentified :
    (env : MonitoringEnv) (o : Result MetricsClient)
    → new_metrics_client env ≡ o
    → AllIdentified (usable o)
usable-AllIdentified env (ok mc) e = new_metrics_client-IsIdentified env mc e
usable-AllIdentified env (err x) e = tt

pub sent_one :
    (now : Time) (answer : Option Text) (mc : MetricsClient) (latency : ℤ) (st : ProbeStatus)
    → IsIdentified mc
    → (length (write_probe_metric now answer mc latency st).0 ≡ 1)
      × All (IsNamed st) (write_probe_metric now answer mc latency st).0
unfolding write_probe_metric
sent_one now answer mc latency st x =
    rw x.ready
      (refl, (record { same_status = refl; has_project = x.has_project; has_pod = x.has_pod }, tt))

one_mul : (d : ℕ) → 1 * d ≡ d
one_mul d = omega arith

waited :
    (now last : Time) (d : ℕ)
    → d ≡ metric_report_every
    → ltb_ℤ (sub now last) (pos d) ≡ false
    → last +ℤ pos d ≤ℤ now
unfolding sub
waited now last d e h = ground (arith, e, -ℤ_parts now last, +ℤ_parts last (pos d))

-- One round's progress: a series or none, and the time that it takes.
pub record IsPaced (s u : ProbeState) (q : List TimeSeries) : Type 0 where
  pub sent : u.sent ≡ s.sent ++ q
  pub named : All (IsNamed probing) q
  pub spaced : s.last_metric_report +ℤ pos (length q * metric_report_every) ≤ℤ u.last_metric_report

pub nothing-IsPaced : (s : ProbeState) → IsPaced s s []
nothing-IsPaced s = record {
  sent = sym (append-nil s.sent);
  named = tt;
  spaced = omega (arith, +ℤ_parts s.last_metric_report (pos 0));
}

spaced_step :
    (last checked now : Time) (n d : ℕ)
    → n ≡ 1
    → last +ℤ pos d ≤ℤ checked
    → checked ≤ℤ now
    → last +ℤ pos (n * d) ≤ℤ now
spaced_step last checked now n d one since h = rw one (rw (one_mul d) (omega (arith, since, h)))

pub spaced_sum :
    (a b c : Time) (m n d : ℕ)
    → a +ℤ pos (m * d) ≤ℤ b
    → b +ℤ pos (n * d) ≤ℤ c
    → a +ℤ pos ((m + n) * d) ≤ℤ c
spaced_sum a b c m n d h k = omega (
  arith,
  h,
  k,
  +ℤ_parts a (pos (m * d)),
  +ℤ_parts b (pos (n * d)),
  +ℤ_parts a (pos ((m + n) * d)),
)

pub progress-IsPaced :
    (mc : Option MetricsClient) (start_ms : ℤ) (r : Round) (s : ProbeState)
    → AllIdentified mc
    → Advances r
    → (q : List TimeSeries) × IsPaced s (progress mc start_ms r s) q
unfolding progress
progress-IsPaced none start_ms r s x h = ([], nothing-IsPaced s)
progress-IsPaced (some mc) start_ms r s x h =
    let late = ltb_ℤ (sub r.checked_at s.last_metric_report) (pos metric_report_every) in
    elim (Bool-cases late) [
      | inl e ↦ ([], subst (λ u. IsPaced s u []) (sym (then_branch late _ _ e)) (nothing-IsPaced s))
      | inr e ↦
          let latency = r.elapsed_ms -ℤ start_ms in
          let q = (write_probe_metric r.sent_at r.write_answer mc latency probing).0 in
          let (one, named) = sent_one r.sent_at r.write_answer mc latency probing x in
          let since = waited r.checked_at s.last_metric_report metric_report_every refl e in
          (
            q,
            subst (λ u. IsPaced s u q) (sym (else_branch late _ _ e))
                (record {
                  sent = refl;
                  named = named;
                  spaced =
                      spaced_step s.last_metric_report r.checked_at r.reported_at (length q)
                        metric_report_every one since h;
                }),
          )
    ]
