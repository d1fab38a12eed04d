-- ===== src/App/Reports/RoundTrip.antt =====
-- Reading the annotations of a deployment's event.
use ketch.Base.{
  String, [], ◌∷◌, ℤ, Dict, itoa, atoi_nearest, atoi_nearest_lem, atoi-itoa, InRange, concat, ◌==◌,
  not, if◌then◌else◌, ◌≡◌, ◌∙◌, refl, ap,
}
use ketch.App.{App}
use ketch.App.Events.{last_version}
use ketch.App.Reports.{
  AppDeploymentEvent, Event, new_app_deployment_event, app_deployment_event_from_watch_event,
  app_deployment_event_from_annotations, number_at, text_at, annotation_development_version,
}

-- The fields that annotations carry; an event that is read has no annotations of its own.
abbrev pub bare : AppDeploymentEvent → AppDeploymentEvent
bare e = record e { annotations = [] }

-- What is shown of an event of a pod.
abbrev pub shown : Event → String
shown e =
    if not (e.involved_object_field_path == "")
    then concat (
        e.involved_object_name ∷ " - " ∷ e.involved_object_field_path ∷ " - " ∷ e.message ∷ " ["
        ∷ e.source_component ∷ "," ∷ e.source_host ∷ "]" ∷ [])
    else e.message

number_at-itoa :
    (m : Dict String) (key : String) (n : ℤ)
    → text_at m key ≡ itoa n
    → InRange n
    → number_at m key ≡ n
unfolding number_at
number_at-itoa m key n h r = ap atoi_nearest h ∙ atoi_nearest_lem (itoa n) n (atoi-itoa n r)

-- For a version that an int holds, the annotations of an event that the reconciler makes give the event
-- back, and those of a pod's event give it back with its object and its source in the description, if it
-- has a field path.
pub from_annotations-round_trip :
    (app : App) (reason desc process_name pod_name : String) (e : Event)
    → InRange (last_version app.spec.deployments)
    → (app_deployment_event_from_annotations
          (new_app_deployment_event app reason desc process_name pod_name).annotations
        ≡ bare (new_app_deployment_event app reason desc process_name pod_name))
      × (app_deployment_event_from_annotations
            (app_deployment_event_from_watch_event e app process_name).annotations
          ≡ record (bare (app_deployment_event_from_watch_event e app process_name)) {
            description = shown e;
          })
unfolding app_deployment_event_from_annotations new_app_deployment_event
    app_deployment_event_from_watch_event
from_annotations-round_trip app reason desc process_name pod_name e r =
    let version = last_version app.spec.deployments in
    let made = new_app_deployment_event app reason desc process_name pod_name in
    let seen = app_deployment_event_from_watch_event e app process_name in
    (
      ap (λ n. record (bare made) { deployment_version = n })
          (number_at-itoa made.annotations annotation_development_version version refl r),
      ap (λ n. record (bare seen) { deployment_version = n; description = shown e })
          (number_at-itoa seen.annotations annotation_development_version version refl r),
    )
