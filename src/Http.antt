-- ===== src/Http.antt =====
-- The answers of the handlers: a status code and the value that writeJSON encodes
-- (app/controller/handlers.go).
use gke_quick_prototype.Prelude.{ℕ, Option, List}
use gke_quick_prototype.Prelude.Int.{ℤ}
use gke_quick_prototype.Prelude.Text.{Text}
use gke_quick_prototype.Clock.{Time, Duration}
use gke_quick_prototype.Histogram.{HistogramSummary}
use gke_quick_prototype.WsServer.{Message}
use gke_quick_prototype.Store.{State, Sandbox, StatusResponse}

pub record ProvisionResponse : Type 0 where
  pub name : Text
  pub node : Text
  pub pod_ip : Text
  pub state : State
  pub expires_at : Option Time

pub record EventInfo : Type 0 where
  pub kind : Text
  pub reason : Text
  pub message : Text
  pub age : Duration
  pub count : ℤ

-- `page` is the page of the user interface with the pool size in it, `metrics_page` the text of
-- promhttp, `terminal_output` what a terminal session writes to its WebSocket,
-- and `plain_text` the text of http.Error. `problem` is the field `error`: a fixed text, and the
-- error that is appended to it.
pub data Body : Type 0 where
  problem : Text → Text → Body
  provisioned : ProvisionResponse → Body
  plain_text : Text → Body
  sandbox : Sandbox → Body
  sandboxes : List Sandbox → Body
  status_body : StatusResponse → Body
  pool_resized : ℤ → ℤ → Body
  restarted : Text → Body
  deleted : Body
  deleted_many : ℕ → Body
  logs : Text → Text → Body
  proxied : Text → Body
  terminal_output : List Message → Body
  events : Text → List EventInfo → Body
  summaries : HistogramSummary → HistogramSummary → Body
  page : ℤ → Body
  metrics_page : Body
  metrics_reset healthy : Body

pub record Response : Type 0 where
  pub code : ℕ
  pub body : Body
