-- ===== src/Workload/Objects.antt =====
-- The Kubernetes objects that the operator creates (k8s.io/api, core/v1 and apps/v1), with the
-- fields that it sets.
use multiprox.Prelude.{ℕ, String, Bool, Option, List}
use multiprox.Prelude.Int.{ℤ}
use multiprox.Api.Meta.{StringMap, ObjectMeta}
use multiprox.Api.Cluster.{Quantity, ResourceRequirements, Toleration, Affinity}
use multiprox.Workload.Devices.{VolumeDevice}

pub record ServicePort : Type 0 where
  pub name : String
  pub port : ℕ
  pub target_port : Option ℕ
  pub protocol : String

pub record ServiceSpec : Type 0 where
  pub type : String
  pub cluster_ip : String
  pub selector : StringMap
  pub ports : List ServicePort
  pub publish_not_ready_addresses : Bool

pub record Service : Type 0 where
  pub meta : ObjectMeta
  pub spec : ServiceSpec

pub record ConfigMap : Type 0 where
  pub meta : ObjectMeta
  pub data_of : StringMap

pub data EnvSource : Type 0 where
  literal : String → EnvSource
  field_ref : (field_path : String) → EnvSource
  secret_key_ref : (name key : String) (optional : Bool) → EnvSource

pub record EnvVar : Type 0 where
  pub name : String
  pub source : EnvSource

pub record VolumeMount : Type 0 where
  pub name : String
  pub mount_path : String

pub record ContainerPort : Type 0 where
  pub name : String
  pub container_port : ℕ
  pub protocol : String

pub record Probe : Type 0 where
  pub command : List String
  pub initial_delay_seconds : ℕ
  pub period_seconds : ℕ
  pub failure_threshold : ℕ

pub record Container : Type 0 where
  pub name : String
  pub image : String
  pub image_pull_policy : String
  pub resources : ResourceRequirements
  pub privileged : Bool
  pub command : List String
  pub env : List EnvVar
  pub ports : List ContainerPort
  pub readiness_probe : Option Probe
  pub liveness_probe : Option Probe
  pub volume_mounts : List VolumeMount
  pub volume_devices : List VolumeDevice

-- a key of a ConfigMap and the file that it becomes
pub record KeyToPath : Type 0 where
  pub key : String
  pub path : String

pub data VolumeSource : Type 0 where
  config_map : (name : String) (default_mode : Option ℕ) (items : List KeyToPath) → VolumeSource
  empty_dir : (medium : String) → VolumeSource
  host_path : (path type : String) → VolumeSource

pub record Volume : Type 0 where
  pub name : String
  pub source : VolumeSource

pub record PodTemplate : Type 0 where
  pub labels : StringMap
  pub subdomain : String
  pub node_selector : StringMap
  pub tolerations : List Toleration
  pub affinity : Affinity
  pub image_pull_secrets : List String
  pub init_containers : List Container
  pub containers : List Container
  pub volumes : List Volume

pub data VolumeMode : Type 0 where
  filesystem block : VolumeMode

pub record PersistentVolumeClaim : Type 0 where
  pub name : String
  pub labels : StringMap
  pub access_modes : List String
  pub storage_class_name : Option String
  pub volume_mode : VolumeMode
  pub storage : Quantity

pub record StatefulSetSpec : Type 0 where
  pub replicas : ℤ
  pub service_name : String
  pub pod_management_policy : String
  pub update_strategy : String
  pub match_labels : StringMap
  pub template : PodTemplate
  pub volume_claim_templates : List PersistentVolumeClaim

pub record StatefulSet : Type 0 where
  pub meta : ObjectMeta
  pub spec : StatefulSetSpec
  pub ready_replicas : ℤ
