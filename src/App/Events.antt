-- ===== src/App/Events.antt =====
-- The events of a canary deployment in internal/api/v1beta1/app_types.go: how each is made, and how
-- it is read back from its annotations. The annotations of an event are its record in Kubernetes.
pub mod TargetChange
pub mod RoundTrip
use ketch.Base.{
  ℕ, String, Bool, List, [], ◌∷◌, Option, none, some, ℤ, pos, to_uint8, Dict, lookup, insert, itoa,
  atoi, concat, Result, ok, err, message, ◌>>=◌,
}
use ketch.App.{AppDeploymentSpec, App}

abbrev pub annotation_app_name : String
annotation_app_name = "canary.shipa.io/app-name"

abbrev pub annotation_development_version : String
annotation_development_version = "canary.shipa.io/deployment-version"

abbrev pub annotation_event_name : String
annotation_event_name = "canary.shipa.io/event-name"

abbrev pub annotation_description : String
annotation_description = "canary.shipa.io/description"

abbrev pub annotation_step : String
annotation_step = "canary.shipa.io/step"

abbrev pub annotation_version_source : String
annotation_version_source = "canary.shipa.io/version-source"

abbrev pub annotation_version_dest : String
annotation_version_dest = "canary.shipa.io/version-dest"

abbrev pub annotation_weight_source : String
annotation_weight_source = "canary.shipa.io/weight-source"

abbrev pub annotation_weight_dest : String
annotation_weight_dest = "canary.shipa.io/weight-dest"

abbrev pub annotation_process_name : String
annotation_process_name = "canary.shipa.io/process-name"

abbrev pub annotation_process_units_source : String
annotation_process_units_source = "canary.shipa.io/source-process-units"

abbrev pub annotation_process_units_dest : String
annotation_process_units_dest = "canary.shipa.io/dest-process-units"

pub record CanaryEvent : Type 0 where
  pub app_name : String
  pub deployment_version : ℤ
  pub name : String
  pub description : String
  pub annotations : Dict String

-- The version of the last deployment, 0 if there is none.
unfoldable pub last_version : List AppDeploymentSpec → ℤ
last_version [] = pos 0
last_version (d ∷ []) = d.version
last_version (d ∷ e ∷ ds) = last_version (e ∷ ds)

unfoldable pub new_canary_event : App → String → String → CanaryEvent
new_canary_event app event desc = record {
  app_name = app.name;
  deployment_version = last_version app.spec.deployments;
  name = event;
  description = desc;
  annotations =
      (annotation_app_name, app.name)
      ∷ (annotation_development_version, itoa (last_version app.spec.deployments))
      ∷ (annotation_event_name, event)
      ∷ (annotation_description, desc)
      ∷ [];
}

-- `(c CanaryEvent) Message`
unfoldable pub canary_message : CanaryEvent → String
canary_message c = concat (
    c.name
    ∷ " - Canary for app "
    ∷ c.app_name
    ∷ " | version "
    ∷ itoa c.deployment_version
    ∷ " - "
    ∷ c.description
    ∷ [])

-- A field that is left as it is when its annotation is missing.
unfoldable pub text_field : Dict String → String → String
text_field annotations key = elim (lookup key annotations) [ none ↦ "" | some value ↦ value ]

parse_field : Option String → Result ℤ
parse_field none = ok (pos 0)
parse_field (some value) = elim (atoi value) [
  | none ↦ err (message "unable to parse CanaryEvent")
  | some version ↦ ok version
]

unfoldable pub int_field : Dict String → String → Result ℤ
unfolding parse_field
int_field annotations key = parse_field (lookup key annotations)

unfoldable pub canary_event_from_annotations : Dict String → Result CanaryEvent
unfolding text_field int_field
canary_event_from_annotations annotations = do
  version ← int_field annotations annotation_development_version
  ok (record {
    app_name = text_field annotations annotation_app_name;
    deployment_version = version;
    name = text_field annotations annotation_event_name;
    description = text_field annotations annotation_description;
    annotations = [];
  })

pub record CanaryNextStepEvent : Type 0 where
  pub event : CanaryEvent
  pub step : ℤ
  pub version_source : ℤ
  pub version_dest : ℤ
  pub weight_source : ℕ
  pub weight_dest : ℕ

-- The loop that adds the further annotations, whose keys are new: any order gives the same map.
unfoldable pub add_annotations : Dict String → CanaryEvent → CanaryEvent
add_annotations [] base = base
add_annotations ((key, value) ∷ more) base =
    add_annotations more (record base { annotations = insert key value base.annotations })

-- `newCanaryNextStepEvent` of an app whose first two deployments are `source` and `dest`
unfoldable pub new_canary_next_step_event :
    App → AppDeploymentSpec → AppDeploymentSpec → CanaryNextStepEvent
unfolding add_annotations
new_canary_next_step_event app source dest = record {
  event =
      add_annotations
        ((annotation_step, itoa app.spec.canary.current_step)
          ∷ (annotation_version_source, itoa source.version)
          ∷ (annotation_version_dest, itoa dest.version)
          ∷ (annotation_weight_source, itoa (pos source.routing_settings.weight))
          ∷ (annotation_weight_dest, itoa (pos dest.routing_settings.weight))
          ∷ [])
        (new_canary_event app "CanaryNextStep" "weight change");
  step = app.spec.canary.current_step;
  version_source = source.version;
  version_dest = dest.version;
  weight_source = source.routing_settings.weight;
  weight_dest = dest.routing_settings.weight;
}

unfoldable pub next_step_message : CanaryNextStepEvent → String
unfolding canary_message
next_step_message c = concat (
    canary_message c.event
    ∷ ": Step: "
    ∷ itoa c.step
    ∷ " | Source version: "
    ∷ itoa c.version_source
    ∷ " | Dest version: "
    ∷ itoa c.version_dest
    ∷ " | Source weight: "
    ∷ itoa (pos c.weight_source)
    ∷ " | Dest weight: "
    ∷ itoa (pos c.weight_dest)
    ∷ [])

unfoldable pub canary_next_step_event_from_annotations : Dict String → Result CanaryNextStepEvent
unfolding canary_event_from_annotations
canary_next_step_event_from_annotations annotations = do
  base ← canary_event_from_annotations annotations
  step ← int_field annotations annotation_step
  source ← int_field annotations annotation_version_source
  dest ← int_field annotations annotation_version_dest
  weight_source ← int_field annotations annotation_weight_source
  weight_dest ← int_field annotations annotation_weight_dest
  ok (record {
    event = base;
    step = step;
    version_source = source;
    version_dest = dest;
    weight_source = to_uint8 weight_source;
    weight_dest = to_uint8 weight_dest;
  })
