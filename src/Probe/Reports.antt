-- ===== src/Probe/Reports.antt =====
-- What the probe reports: how often, and once for all in the end.
use gke_quick_prototype.Prelude.{
  ℕ, ◌+◌, ◌*◌, ◌≡◌, refl, sym, ap, subst, ◌∙◌, Bool-cases, inl, inr, Option, none, some, List, [],
  ◌∷◌, ◌++◌, append_assoc, append-nil, All, All-append, length, length-append, then_branch,
  else_branch,
}
use gke_quick_prototype.Prelude.Int.{ℤ, pos, ◌+ℤ◌, ◌-ℤ◌, ◌≤ℤ◌}
use gke_quick_prototype.Clock.{Time}
use gke_quick_prototype.Monitoring.{
  MonitoringEnv, MetricsClient, TimeSeries, probing, complete, new_metrics_client,
}
use gke_quick_prototype.Probe.Pace.{
  Advances, IsNamed, usable, AllIdentified, usable-AllIdentified, sent_one, spaced_sum, IsPaced,
  nothing-IsPaced, progress-IsPaced,
}
use gke_quick_prototype.Probe.{
  metric_report_every, Round, ProbeState, ProbeEnd, context_done, succeeded, is_success, report,
  progress, probe_loop, probe_network_access,
}

-- One last series where the probe has succeeded and there is a client, else none.
abbrev pub finals : Option MetricsClient → Option ProbeEnd → ℕ
finals (some mc) (some succeeded) = 1
finals _ _ = 0

-- How a run of the loop from `s` comes out: the reports on the way, and the last one.
pub record IsOutcome (mc : Option MetricsClient) (s : ProbeState) (o : Option ProbeEnd × ProbeState)
    : Type 0 where
  pub underway : List TimeSeries
  pub last : List TimeSeries
  pub sent : o.1.sent ≡ s.sent ++ (underway ++ last)
  pub named_underway : All (IsNamed probing) underway
  pub named_last : All (IsNamed complete) last
  pub once : length last ≡ finals mc o.0
  pub spaced :
      s.last_metric_report +ℤ pos (length underway * metric_report_every) ≤ℤ o.1.last_metric_report

quiet-IsOutcome :
    (mc : Option MetricsClient) (s : ProbeState) (e : Option ProbeEnd)
    → finals mc e ≡ 0
    → IsOutcome mc s (e, s)
quiet-IsOutcome mc s e n = record {
  underway = [];
  last = [];
  sent = sym (append-nil s.sent);
  named_underway = tt;
  named_last = tt;
  once = sym n;
  spaced = (nothing-IsPaced s).spaced;
}

finals-none : (mc : Option MetricsClient) → finals mc none ≡ 0
finals-none none = refl
finals-none (some mc) = refl

finals-done : (mc : Option MetricsClient) → finals mc (some context_done) ≡ 0
finals-done none = refl
finals-done (some mc) = refl

report_lem :
    (mc : Option MetricsClient) (start_ms : ℤ) (r : Round)
    → AllIdentified mc
    → (length (report mc start_ms r) ≡ finals mc (some succeeded))
      × All (IsNamed complete) (report mc start_ms r)
unfolding report
report_lem none start_ms r x = (refl, tt)
report_lem (some mc) start_ms r x =
    sent_one r.sent_at r.write_answer mc (r.end_ms -ℤ start_ms) complete x

final-IsOutcome :
    (mc : Option MetricsClient) (start_ms : ℤ) (r : Round) (s : ProbeState)
    → AllIdentified mc
    → IsOutcome mc s (
      some succeeded,
      record s { attempt = s.attempt + 1; sent = s.sent ++ report mc start_ms r },
    )
final-IsOutcome mc start_ms r s x =
    let (one, named) = report_lem mc start_ms r x in
    record {
      underway = [];
      last = report mc start_ms r;
      sent = refl;
      named_underway = tt;
      named_last = named;
      once = one;
      spaced = (nothing-IsPaced s).spaced;
    }

later-IsOutcome :
    (mc : Option MetricsClient) (s u : ProbeState) (q : List TimeSeries)
    (o : Option ProbeEnd × ProbeState)
    → IsPaced s u q
    → IsOutcome mc u o
    → IsOutcome mc s o
later-IsOutcome mc s u q o p x = record {
  underway = q ++ x.underway;
  last = x.last;
  sent = x.sent ∙ ap (λ w. w ++ (x.underway ++ x.last)) p.sent ∙ simp append_assoc;
  named_underway = All-append (IsNamed probing) q x.underway p.named x.named_underway;
  named_last = x.named_last;
  once = x.once;
  spaced = rw (length-append q x.underway) (
      spaced_sum s.last_metric_report u.last_metric_report o.1.last_metric_report (length q)
        (length x.underway) metric_report_every p.spaced x.spaced);
}

probe_loop-IsOutcome :
    (mc : Option MetricsClient) (start_ms : ℤ) (rounds : List Round) (s : ProbeState)
    → AllIdentified mc
    → All Advances rounds
    → IsOutcome mc s (probe_loop mc start_ms rounds s)
unfolding probe_loop
probe_loop-IsOutcome mc start_ms [] s x a = quiet-IsOutcome mc s none (finals-none mc)
probe_loop-IsOutcome mc start_ms (r ∷ rest) s x a =
    let s' = record s { attempt = s.attempt + 1 } in
    let (q, paced) = progress-IsPaced mc start_ms r s' x a.0 in
    let u = progress mc start_ms r s' in
    let ih = probe_loop-IsOutcome mc start_ms rest u x a.1 in
    elim (Bool-cases r.cancelled) [
      | inl e ↦
          subst (IsOutcome mc s) (sym (then_branch r.cancelled _ _ e))
            (quiet-IsOutcome mc s (some context_done) (finals-done mc))
      | inr e ↦ elim (Bool-cases (is_success r.answer)) [
        | inl f ↦
            subst (IsOutcome mc s)
              (sym (else_branch r.cancelled _ _ e ∙ then_branch (is_success r.answer) _ _ f))
              (final-IsOutcome mc start_ms r s x)
        | inr f ↦
            subst (IsOutcome mc s)
              (sym (else_branch r.cancelled _ _ e ∙ else_branch (is_success r.answer) _ _ f))
              (later-IsOutcome mc s u q _
                (record { sent = paced.sent; named = paced.named; spaced = paced.spaced }) ih)
      ]
    ]

abbrev pub probe_start : Time → ProbeState
probe_start begun = record { last_metric_report = begun; attempt = 0; sent = [] }

-- A run of the probe with the client that the sandbox could make, where the clock does not go back
-- within a round: the series sent are progress reports, n of which take n times five seconds at
-- least from the start to the last of them, and then, exactly if the probe has succeeded and there
-- is a client, one last series `complete`. Each names a project and a pod.
pub probe_network_access_lem :
    (env : MonitoringEnv) (start_ms : ℤ) (begun : Time) (rounds : List Round)
    → All Advances rounds
    → IsOutcome
        (usable (new_metrics_client env))
        (probe_start begun)
        (probe_network_access (usable (new_metrics_client env)) start_ms begun rounds)
unfolding probe_network_access
probe_network_access_lem env start_ms begun rounds a =
    probe_loop-IsOutcome (usable (new_metrics_client env)) start_ms rounds (probe_start begun)
      (usable-AllIdentified env (new_metrics_client env) refl) a
