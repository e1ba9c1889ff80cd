-- ===== src/Monitoring.antt =====
-- app/sandbox/metrics.go: the client that writes the probe's latency to Cloud Monitoring.
pub mod Identity
use gke_quick_prototype.Prelude.{
  Bool, true, false, Option, none, some, List, [], ◌∷◌, ◌++◌, if◌then◌else◌,
}
use gke_quick_prototype.Prelude.Int.{ℤ}
use gke_quick_prototype.Prelude.Text.{Text, codes}
use gke_quick_prototype.Clock.{Time}
use gke_quick_prototype.Provision.{Result, ok, err}

-- The variables of the environment (an unset one is empty), and what the metadata server and the
-- constructor of the client answer. A failed call of the metadata server gives the empty text.
pub record MonitoringEnv : Type 0 where
  pub client_error : Option Text
  pub pod_name : Text
  pub pod_namespace : Text
  pub project : Text
  pub on_gce : Bool
  pub metadata_project : Text
  pub metadata_cluster : Text
  pub metadata_location : Text
  pub pid : Text

pub record MetricsClient : Type 0 where
  pub project_id : Text
  pub cluster_name : Text
  pub location : Text
  pub namespace : Text
  pub pod_name : Text
  pub ready : Bool

-- if s == "" { s = fallback }
abbrev pub or_default : Text → Text → Text
or_default [] fallback = fallback
or_default (c ∷ s) fallback = c ∷ s

abbrev from_metadata : Bool → Text → Text
from_metadata on_gce s = if on_gce then s else []

-- The client as it is filled in, before the last check.
unfoldable pub configured : MonitoringEnv → MetricsClient
configured env = record {
  project_id = or_default (from_metadata env.on_gce env.metadata_project) env.project;
  cluster_name = from_metadata env.on_gce env.metadata_cluster;
  location = from_metadata env.on_gce env.metadata_location;
  namespace = or_default env.pod_namespace (codes "sandbox");
  pod_name = or_default env.pod_name (codes "local-" ++ env.pid);
  ready = false;
}

unfoldable pub identified : Text → MetricsClient → Result MetricsClient
identified [] mc = err (codes "could not determine project ID from metadata or PROJECT env var")
identified (c ∷ s) mc = ok (record mc { ready = true })

unfoldable pub new_metrics_client : MonitoringEnv → Result MetricsClient
new_metrics_client env = elim env.client_error [
  | some e ↦ err (codes "monitoring.NewMetricClient: " ++ e)
  | none ↦ identified (configured env).project_id (configured env)
]

pub data MonitoredResource : Type 0 where
  -- project_id, location, cluster_name, namespace_name, pod_name
  k8s_pod : Text → Text → Text → Text → Text → MonitoredResource
  global : Text → MonitoredResource

-- The branch on clusterName and location.
unfoldable pub resource_in : MetricsClient → Text → Text → MonitoredResource
resource_in mc [] location = global mc.project_id
resource_in mc (c ∷ cluster) [] = global mc.project_id
resource_in mc (c ∷ cluster) (d ∷ location) =
    k8s_pod mc.project_id (d ∷ location) (c ∷ cluster) mc.namespace mc.pod_name

unfoldable pub monitored_resource : MetricsClient → MonitoredResource
monitored_resource mc = resource_in mc mc.cluster_name mc.location

pub data ProbeStatus : Type 0 where
  probing complete : ProbeStatus

-- The one time series of a request.
pub record TimeSeries : Type 0 where
  pub project_id : Text
  pub pod_name : Text
  pub status : ProbeStatus
  pub resource : MonitoredResource
  pub end_time : Time
  pub latency_ms : ℤ

abbrev answer_error : Option Text → Option Text
answer_error none = none
answer_error (some e) = some (codes "CreateTimeSeries: " ++ e)

-- What writeProbeMetric sends, and the error that it returns. `now` is its reading of the clock, and
-- `answer` what CreateTimeSeries answers.
unfoldable pub write_probe_metric :
    Time → Option Text → MetricsClient → ℤ → ProbeStatus → List TimeSeries × Option Text
write_probe_metric now answer mc latency_ms status =
    if mc.ready
    then (
      record {
        project_id = mc.project_id;
        pod_name = mc.pod_name;
        status = status;
        resource = monitored_resource mc;
        end_time = now;
        latency_ms = latency_ms;
      }
          ∷ [],
      answer_error answer,
    )
    else ([], some (codes "metrics client not ready"))
