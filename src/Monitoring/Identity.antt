-- ===== src/Monitoring/Identity.antt =====
-- Who a metrics client says that it is.
use gke_quick_prototype.Prelude.{
  ◌≡◌, ◌≢◌, refl, subst, true, inl, inr, Option-cases, [], ◌∷◌, ◌++◌, arith,
}
use gke_quick_prototype.Prelude.Text.{Text, codes}
use gke_quick_prototype.Provision.{ok, err}
use gke_quick_prototype.Monitoring.{
  MonitoringEnv, MetricsClient, or_default, configured, identified, new_metrics_client,
}

or_default-ne : (s t : Text) → t ≢ [] → or_default s t ≢ []
or_default-ne [] t h = h
or_default-ne (c ∷ s) t h = λ e. cc

-- A client that can write, and knows its project, its namespace and its pod.
pub record IsIdentified (mc : MetricsClient) : Type 0 where
  pub ready : mc.ready ≡ true
  pub has_project : mc.project_id ≢ []
  pub has_namespace : mc.namespace ≢ []
  pub has_pod : mc.pod_name ≢ []

identified-ok :
    (s : Text) (mc mc' : MetricsClient)
    → identified s mc ≡ ok mc'
    → (s ≢ []) × (record mc { ready = true } ≡ mc')
unfolding identified
identified-ok [] mc mc' e = cc
identified-ok (c ∷ s) mc mc' e = (λ n. cc, ground arith)

configured-IsIdentified :
    (env : MonitoringEnv)
    → (configured env).project_id ≢ []
    → IsIdentified (record (configured env) { ready = true })
configured-IsIdentified env h = record {
  ready = refl;
  has_project = h;
  has_namespace =
      (unfold configured in or_default-ne env.pod_namespace (codes "sandbox") (λ e. cc));
  has_pod = (unfold configured in or_default-ne env.pod_name (codes "local-" ++ env.pid) (λ e. cc));
}

pub new_metrics_client-IsIdentified :
    (env : MonitoringEnv) (mc : MetricsClient) → new_metrics_client env ≡ ok mc → IsIdentified mc
unfolding new_metrics_client
new_metrics_client-IsIdentified env mc e = elim (Option-cases env.client_error) [
  | inl n ↦
      let made : identified (configured env).project_id (configured env) ≡ ok mc =
        rw (n, new_metrics_client) at e in
      let (named, same) = identified-ok (configured env).project_id (configured env) mc made in
      subst IsIdentified same (configured-IsIdentified env named)
  | inr (x, n) ↦
      let refused : err (codes "monitoring.NewMetricClient: " ++ x) ≡ ok mc =
        rw (n, new_metrics_client) at e in
      cc
]
