-- ===== src/App/Reports.antt =====
-- The events of a deployment and the outcome of a reconcile: internal/api/v1beta1/app_types.go, and
-- newAppDeploymentEvent, appDeploymentEventFromWatchEvent and isDeploymentEvent of
-- internal/controllers/app_controller.go.
pub mod RoundTrip
use Prim.Native.Char.{Char}
use Prim.Native.String
use ketch.Base.{
  String, Bool, true, false, List, [], ◌∷◌, map, Option, none, some, ℤ, pos, Dict, lookup, itoa,
  atoi_nearest, concat, has_prefix, ◌==◌, ◌&&◌, not, if◌then◌else◌,
}
use ketch.App.{App}
use ketch.App.Events.{last_version}

abbrev pub annotation_app_name : String
annotation_app_name = "deployment.shipa.io/app-name"

abbrev pub annotation_development_version : String
annotation_development_version = "deployment.shipa.io/deployment-version"

abbrev pub annotation_event_name : String
annotation_event_name = "deployment.shipa.io/event-name"

abbrev pub annotation_description : String
annotation_description = "deployment.shipa.io/description"

abbrev pub annotation_process_name : String
annotation_process_name = "deployment.shipa.io/process-name"

abbrev pub annotation_involved_object_name : String
annotation_involved_object_name = "deployment.shipa.io/involved-object-name"

abbrev pub annotation_involved_object_field_path : String
annotation_involved_object_field_path = "deployment.shipa.io/involved-object-field-path"

abbrev pub annotation_source_host : String
annotation_source_host = "deployment.shipa.io/source-host"

abbrev pub annotation_source_component : String
annotation_source_component = "deployment.shipa.io/source-component"

abbrev pub annotation_pod_error_name : String
annotation_pod_error_name = "deployment.shipa.io/pod-error-name"

-- `AppDeploymentEvent`, with the fields that the code sets.
pub record AppDeploymentEvent : Type 0 where
  pub name : String
  pub deployment_version : ℤ
  pub reason : String
  pub description : String
  pub process_name : String
  pub annotations : Dict String

unfoldable pub new_app_deployment_event :
    App → String → String → String → String → AppDeploymentEvent
unfolding last_version itoa
new_app_deployment_event app reason desc process_name pod_name =
    let version = last_version app.spec.deployments in
    record {
      name = app.name;
      deployment_version = version;
      reason = reason;
      description = desc;
      process_name = process_name;
      annotations =
          (annotation_app_name, app.name)
          ∷ (annotation_development_version, itoa version)
          ∷ (annotation_event_name, reason)
          ∷ (annotation_description, desc)
          ∷ (annotation_process_name, process_name)
          ∷ (annotation_pod_error_name, pod_name)
          ∷ [];
    }

-- v1.Event, as far as the code reads it
pub record Event : Type 0 where
  pub name : String
  pub reason : String
  pub message : String
  pub involved_object_name : String
  pub involved_object_field_path : String
  pub source_host : String
  pub source_component : String

-- `appDeploymentEventFromWatchEvent`, of an object that is an event
unfoldable pub app_deployment_event_from_watch_event : Event → App → String → AppDeploymentEvent
unfolding last_version itoa
app_deployment_event_from_watch_event event app process_name =
    let version = last_version app.spec.deployments in
    record {
      name = app.name;
      deployment_version = version;
      reason = event.reason;
      description = event.message;
      process_name = process_name;
      annotations =
          (annotation_app_name, app.name)
          ∷ (annotation_development_version, itoa version)
          ∷ (annotation_event_name, event.reason)
          ∷ (annotation_description, event.message)
          ∷ (annotation_process_name, process_name)
          ∷ (annotation_involved_object_name, event.involved_object_name)
          ∷ (annotation_involved_object_field_path, event.involved_object_field_path)
          ∷ (annotation_source_host, event.source_host)
          ∷ (annotation_source_component, event.source_component)
          ∷ [];
    }

-- m[key], the empty text if it is missing
unfoldable pub text_at : Dict String → String → String
unfolding lookup
text_at m key = elim (lookup key m) [ none ↦ "" | some t ↦ t ]

-- `strconv.Atoi`, its error dropped
unfoldable pub number_at : Dict String → String → ℤ
unfolding text_at atoi_nearest
number_at m key = atoi_nearest (text_at m key)

unfoldable pub app_deployment_event_from_annotations : Dict String → AppDeploymentEvent
unfolding text_at number_at
app_deployment_event_from_annotations m = record {
  name = text_at m annotation_app_name;
  deployment_version = number_at m annotation_development_version;
  reason = text_at m annotation_event_name;
  description =
      if not (text_at m annotation_involved_object_field_path == "")
      then concat (
          text_at m annotation_involved_object_name
          ∷ " - "
          ∷ text_at m annotation_involved_object_field_path
          ∷ " - "
          ∷ text_at m annotation_description
          ∷ " ["
          ∷ text_at m annotation_source_component
          ∷ ","
          ∷ text_at m annotation_source_host
          ∷ "]"
          ∷ [])
      else text_at m annotation_description;
  process_name = text_at m annotation_process_name;
  annotations = [];
}

-- `isDeploymentEvent`, of an object that is an event
unfoldable pub is_deployment_event : Event → String → Bool
unfolding has_prefix
is_deployment_event event name = has_prefix event.name name

-- `AppReconcileOutcome` as text: without an error, and with the text of one, which `%v` prints in
-- brackets as the variadic argument is a list.
pub record AppReconcileOutcome : Type 0 where
  pub app_name : String
  pub deployment_count : ℤ

unfoldable pub outcome_success : AppReconcileOutcome → String
unfolding itoa
outcome_success r =
    concat ("app " ∷ r.app_name ∷ " " ∷ itoa r.deployment_count ∷ " reconcile success" ∷ [])

unfoldable pub outcome_fail : AppReconcileOutcome → String → String
unfolding itoa
outcome_fail r e =
    concat
      ("app " ∷ r.app_name ∷ " " ∷ itoa r.deployment_count ∷ " reconcile fail: [" ∷ e ∷ "]" ∷ [])
