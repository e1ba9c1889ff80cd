-- ===== src/Kube.antt =====
-- The Kubernetes objects, with the fields that app/controller reads, and the calls that it makes
-- on the API server. The server itself is not modelled: its answers are arguments of the handlers.
use gke_quick_prototype.Prelude.{ℕ, Option, List}
use gke_quick_prototype.Prelude.Int.{ℤ}
use gke_quick_prototype.Prelude.Text.{Text}
use gke_quick_prototype.Prelude.Map.{Map}
use gke_quick_prototype.Clock.{Time}

-- `waiting` is the reason of State.Waiting, `terminated` the exit code of State.Terminated.
pub record ContainerStatus : Type 0 where
  pub waiting : Option Text
  pub terminated : Option ℤ

pub record Condition : Type 0 where
  pub kind : Text
  pub status : Text
  pub last_transition : Time

pub record Pod : Type 0 where
  pub name : Text
  pub deletion : Option Time
  pub labels : Map Text
  pub annotations : Map Text
  pub creation : Time
  pub phase : Text
  pub pod_ip : Text
  pub node_name : Text
  pub conditions : List Condition
  pub statuses : List ContainerStatus
  pub images : List Text

-- The usage of one container: CPU in millicores, memory and ephemeral storage in bytes.
pub record Usage : Type 0 where
  pub cpu : ℕ
  pub memory : ℕ
  pub ephemeral : ℕ

pub record PodUsage : Type 0 where
  pub pod : Text
  pub containers : List Usage

-- An event about an object, with the clock as its age is taken.
pub record Event : Type 0 where
  pub kind : Text
  pub reason : Text
  pub message : Text
  pub last_timestamp : Time
  pub seen_at : Time
  pub count : ℤ

-- A JSON merge patch of a pod's metadata. Each list replaces what is there under its keys.
pub record PodPatch : Type 0 where
  pub set_labels : Map Text
  pub set_annotations : Map Text
  pub owner_references : List Text

-- Writing calls, with the namespace and the name that they address. A deletion has the grace
-- period in seconds.
pub data Call : Type 0 where
  patch_pod : Text → Text → PodPatch → Call
  delete_pod : Text → Text → ℕ → Call
  patch_replicas : Text → Text → ℤ → Call
