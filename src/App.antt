-- ===== src/App.antt =====
-- internal/api/v1beta1/app_types.go, ketch_yaml.go, exposed_port.go, ingress.go, condition.go: the
-- data model of an app. A pointer is an `Option`: no method writes through one that is shared. Times
-- and durations are integers (nanoseconds). Of the metadata of Kubernetes the fields are kept that
-- the code reads. Third-party values that the code only passes along are kept as their text.
pub mod Units
pub mod Events
pub mod Scaling
pub mod Canary
pub mod Ports
pub mod Envs
pub mod Status
pub mod Labels
pub mod Reports
use ketch.Base.{ℕ, String, Bool, List, Option, none, some, ℤ, Dict, ◌==◌, ◌&&◌}

-- A value of a third-party type that the code never looks into, as its serialised text.
abbrev pub Opaque : Type 0
Opaque = String

-- A point in time.
abbrev pub Time : Type 0
Time = ℤ

pub record Env : Type 0 where
  pub name : String
  pub value : String

pub record Label : Type 0 where
  pub name : String
  pub value : String

pub record Cname : Type 0 where
  pub name : String
  pub secure : Bool
  pub secret_name : String

-- A `uint8`.
pub record RoutingSettings : Type 0 where
  pub weight : ℕ

-- v1.Volume, with the claim of its PersistentVolumeClaim source
pub record Volume : Type 0 where
  pub name : String
  pub claim_name : String

-- v1.VolumeMount
pub record VolumeMount : Type 0 where
  pub name : String
  pub mount_path : String
  pub read_only : Bool

pub record ProcessSpec : Type 0 where
  pub name : String
  pub units : Option ℤ
  pub env : List Env
  pub cmd : List String
  pub resources : Option Opaque
  pub volumes : List Volume
  pub volume_mounts : List VolumeMount
  pub security_context : Option Opaque

pub record KetchYamlProcessPortConfig : Type 0 where
  pub name : String
  pub protocol : String
  pub port : ℤ
  pub target_port : ℤ

pub record KetchYamlProcessConfig : Type 0 where
  pub ports : List KetchYamlProcessPortConfig

pub record KetchYamlKubernetesConfig : Type 0 where
  pub processes : Dict KetchYamlProcessConfig

pub record KetchYamlHealthcheck : Type 0 where
  pub liveness_probe : Option Opaque
  pub readiness_probe : Option Opaque
  pub startup_probe : Option Opaque

pub record KetchYamlRestartHooks : Type 0 where
  pub before : List String
  pub after : List String

pub record KetchYamlHooks : Type 0 where
  pub restart : KetchYamlRestartHooks

pub record KetchYamlData : Type 0 where
  pub hooks : Option KetchYamlHooks
  pub healthcheck : Option KetchYamlHealthcheck
  pub kubernetes : Option KetchYamlKubernetesConfig

pub record ExposedPort : Type 0 where
  pub port : ℤ
  pub protocol : String

pub record AppDeploymentSpec : Type 0 where
  pub image_pull_secrets : List String
  pub image : String
  pub version : ℤ
  pub processes : List ProcessSpec
  pub ketch_yaml : Option KetchYamlData
  pub labels : List Label
  pub routing_settings : RoutingSettings
  pub exposed_ports : List ExposedPort

pub record IngressControllerSpec : Type 0 where
  pub class_name : String
  pub service_endpoint : String
  pub ingress_type : String
  pub cluster_issuer : String

pub record IngressSpec : Type 0 where
  pub generate_default_cname : Bool
  pub cnames : List Cname
  pub controller : IngressControllerSpec

pub record DockerRegistrySpec : Type 0 where
  pub secret_name : String

pub data AppPhase : Type 0 where
  app_created app_error app_running : AppPhase

-- v1.ConditionStatus
pub data ConditionStatus : Type 0 where
  condition_true condition_false condition_unknown : ConditionStatus

pub record Condition : Type 0 where
  pub type : String
  pub status : ConditionStatus
  pub last_transition_time : Option Time
  pub message : String

pub record AppStatus : Type 0 where
  pub conditions : List Condition
  pub extensions_statuses : List Opaque

-- `target` is `none` for a nil map; its values are `uint16`.
pub record CanarySpec : Type 0 where
  pub steps : ℤ
  pub step_weight : ℕ
  pub step_time_interval : ℤ
  pub next_scheduled_time : Option Time
  pub current_step : ℤ
  pub active : Bool
  pub started : Option Time
  pub target : Option (Dict ℕ)

pub record Target : Type 0 where
  pub api_version : String
  pub kind : String

pub record MetadataItem : Type 0 where
  pub target : Target
  pub apply : Dict String
  pub deployment_version : ℤ
  pub process_name : String

pub data AppType : Type 0 where
  deployment_app_type stateful_set_app_type : AppType

-- v1.PodSecurityContext, as far as the code sets it
pub record PodSecurityContext : Type 0 where
  pub run_as_user : Option ℤ
  pub fs_group : Option ℤ

pub record PersistentVolumeClaim : Type 0 where
  pub name : String
  pub access_modes : List String
  pub storage_class_name : Option String
  pub storage : String

pub record AppSpec : Type 0 where
  pub version : Option String
  pub id : String
  pub description : String
  pub canary : CanarySpec
  pub deployments : List AppDeploymentSpec
  pub deployments_count : ℤ
  pub env : List Env
  pub ingress : IngressSpec
  pub docker_registry : DockerRegistrySpec
  pub builder : String
  pub build_packs : List String
  pub labels : List MetadataItem
  pub annotations : List MetadataItem
  pub namespace : String
  pub service_account_name : String
  pub security_context : Option PodSecurityContext
  pub extensions : List Opaque
  pub volume_claim_templates : List PersistentVolumeClaim
  pub type : Option AppType

-- `annotations`, `finalizers` and `deletion_timestamp` are of the object's metadata.
pub record App : Type 0 where
  pub name : String
  pub annotations : Dict String
  pub finalizers : List String
  pub deletion_timestamp : Option Time
  pub spec : AppSpec
  pub status : AppStatus

unfoldable pub get_type : AppSpec → AppType
get_type spec = elim spec.type [ none ↦ deployment_app_type | some t ↦ t ]

unfoldable pub is_deployment : Target → Bool
is_deployment t = t.kind == "Deployment" && t.api_version == "apps/v1"

unfoldable pub is_service : Target → Bool
is_service t = t.kind == "Service" && t.api_version == "v1"

unfoldable pub is_pod : Target → Bool
is_pod t = t.kind == "Pod" && t.api_version == "v1"

-- The app with other deployments.
abbrev pub with_deployments : App → List AppDeploymentSpec → App
with_deployments app ds = record app { spec = record app.spec { deployments = ds } }
