-- ===== src/Api/Pod.antt =====
-- The parts of a Kubernetes Pod (k8s.io/api, core/v1) that the operator reads.
use multiprox.Prelude.{String, List}
use multiprox.Api.Meta.{ConditionStatus, StringMap}

pub data PodPhase : Type 0 where
  pending running succeeded failed unknown : PodPhase

pub record PodCondition : Type 0 where
  pub type : String
  pub status : ConditionStatus

abbrev pub pod_ready : String
pod_ready = "Ready"

pub record Pod : Type 0 where
  pub name : String
  pub namespace : String
  pub labels : StringMap
  pub node_name : String
  pub phase : PodPhase
  pub pod_ip : String
  pub conditions : List PodCondition

-- the constant's text, as `%s` prints it
abbrev pub show_phase : PodPhase → String
show_phase pending = "Pending"
show_phase running = "Running"
show_phase succeeded = "Succeeded"
show_phase failed = "Failed"
show_phase unknown = "Unknown"
