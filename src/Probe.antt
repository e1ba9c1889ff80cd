-- ===== src/Probe.antt =====
-- app/sandbox/probe.go: the probe of the network, with the metrics that it writes.
pub mod Pace
pub mod Reports
use gke_quick_prototype.Prelude.{
  ℕ, ◌+◌, ◌*◌, ◌==◌, Bool, true, false, not, ◌&&◌, ◌||◌, Option, none, some, List, [], ◌∷◌, ◌++◌,
  if◌then◌else◌,
}
use gke_quick_prototype.Prelude.Int.{ℤ, pos, ◌-ℤ◌, ltb_ℤ}
use gke_quick_prototype.Prelude.Text.{Text, codes}
use gke_quick_prototype.Clock.{Time, second, sub}
use gke_quick_prototype.Monitoring.{
  MetricsClient, TimeSeries, probing, complete, write_probe_metric,
}

abbrev millisecond : ℕ
millisecond = 1_000_000

-- metricReportEvery
abbrev pub metric_report_every : ℕ
metric_report_every = 5 * second

-- One round of the loop: whether the context is done, the status code that the target answers
-- (`none` for an error), the readings of the clock in their order, and what writeProbeMetric gets
-- from outside. `_ms` marks UnixMilli. An error of writeProbeMetric is only logged.
pub record Round : Type 0 where
  pub cancelled : Bool
  pub answer : Option ℕ
  pub end_ms : ℤ
  pub checked_at : Time
  pub elapsed_ms : ℤ
  pub reported_at : Time
  pub sent_at : Time
  pub write_answer : Option Text

pub record ProbeState : Type 0 where
  pub last_metric_report : Time
  pub attempt : ℕ
  pub sent : List TimeSeries

pub data ProbeEnd : Type 0 where
  context_done succeeded : ProbeEnd

abbrev pub is_expected : ℕ → Bool
is_expected code = code == 200 || code == 301 || code == 302

-- Whether the target has answered as it does where the network is open.
unfoldable pub is_success : Option ℕ → Bool
is_success none = false
is_success (some code) = is_expected code

unfoldable pub report : Option MetricsClient → ℤ → Round → List TimeSeries
report none start_ms r = []
report (some mc) start_ms r =
    (write_probe_metric r.sent_at r.write_answer mc (r.end_ms -ℤ start_ms) complete).0

-- if mc != nil && time.Since(lastMetricReport) >= metricReportEvery { … }
unfoldable pub progress : Option MetricsClient → ℤ → Round → ProbeState → ProbeState
progress none start_ms r s = s
progress (some mc) start_ms r s =
    if ltb_ℤ (sub r.checked_at s.last_metric_report) (pos metric_report_every)
    then s
    else record s {
      last_metric_report = r.reported_at;
      sent =
          s.sent
          ++ (write_probe_metric r.sent_at r.write_answer mc (r.elapsed_ms -ℤ start_ms) probing).0;
    }

-- The loop: how it ends, `none` as long as it goes on.
unfoldable pub probe_loop :
    Option MetricsClient → ℤ → List Round → ProbeState → Option ProbeEnd × ProbeState
probe_loop mc start_ms [] s = (none, s)
probe_loop mc start_ms (r ∷ rest) s =
    let s' = record s { attempt = s.attempt + 1 } in
    let next = probe_loop mc start_ms rest (progress mc start_ms r s') in
    if r.cancelled
    then (some context_done, s)
    else if is_success r.answer
    then (some succeeded, record s' { sent = s'.sent ++ report mc start_ms r })
    else next

-- The target, and the client's limits: for a connection, and for the whole of a request.
abbrev pub probe_target : Text
probe_target = codes "https://8.8.8.8"

abbrev pub probe_connect_timeout : ℕ
probe_connect_timeout = 500 * millisecond

pub record ProbeClient : Type 0 where
  pub target : Text
  pub dial_timeout : ℕ
  pub timeout : ℕ

abbrev pub probe_client : ProbeClient
probe_client = record {
  target = probe_target;
  dial_timeout = probe_connect_timeout;
  timeout = probe_connect_timeout * 2;
}

-- From the readings of the clock before the loop: that of startMs and that of lastMetricReport. A
-- round's answer is that of `probe_client`.
unfoldable pub probe_network_access :
    Option MetricsClient → ℤ → Time → List Round → Option ProbeEnd × ProbeState
probe_network_access mc start_ms begun rounds =
    probe_loop mc start_ms rounds (record { last_metric_report = begun; attempt = 0; sent = [] })
