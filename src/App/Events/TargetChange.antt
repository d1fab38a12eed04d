-- ===== src/App/Events/TargetChange.antt =====
-- The canary event of a change of a process's units in internal/api/v1beta1/app_types.go.
use ketch.Base.{String, [], ◌∷◌, ℤ, Dict, itoa, concat, Result, ok, ◌>>=◌}
use ketch.App.{AppDeploymentSpec, App}
use ketch.App.Events.{
  annotation_version_source, annotation_version_dest, annotation_process_name,
  annotation_process_units_source, annotation_process_units_dest, CanaryEvent, new_canary_event,
  canary_message, text_field, int_field, add_annotations, canary_event_from_annotations,
}

pub record CanaryTargetChangeEvent : Type 0 where
  pub event : CanaryEvent
  pub version_source : ℤ
  pub version_dest : ℤ
  pub process_name : String
  pub source_process_units : ℤ
  pub destination_process_units : ℤ

unfoldable pub new_canary_target_change_event :
    App → AppDeploymentSpec → AppDeploymentSpec → String → ℤ → ℤ → CanaryTargetChangeEvent
unfolding add_annotations
new_canary_target_change_event app source dest process_name source_units dest_units = record {
  event =
      add_annotations
        ((annotation_version_source, itoa source.version)
          ∷ (annotation_version_dest, itoa dest.version)
          ∷ (annotation_process_name, process_name)
          ∷ (annotation_process_units_source, itoa source_units)
          ∷ (annotation_process_units_dest, itoa dest_units)
          ∷ [])
        (new_canary_event app "CanaryStepTarget" "units change");
  version_source = source.version;
  version_dest = dest.version;
  process_name = process_name;
  source_process_units = source_units;
  destination_process_units = dest_units;
}

unfoldable pub target_change_message : CanaryTargetChangeEvent → String
unfolding canary_message
target_change_message c = concat (
    canary_message c.event
    ∷ ": Source version: "
    ∷ itoa c.version_source
    ∷ " | Dest version: "
    ∷ itoa c.version_dest
    ∷ " | Process: "
    ∷ c.process_name
    ∷ " | Source units: "
    ∷ itoa c.source_process_units
    ∷ " | Dest units: "
    ∷ itoa c.destination_process_units
    ∷ [])

unfoldable pub canary_target_change_event_from_annotations :
    Dict String → Result CanaryTargetChangeEvent
unfolding canary_event_from_annotations
canary_target_change_event_from_annotations annotations = do
  base ← canary_event_from_annotations annotations
  source ← int_field annotations annotation_version_source
  dest ← int_field annotations annotation_version_dest
  source_units ← int_field annotations annotation_process_units_source
  dest_units ← int_field annotations annotation_process_units_dest
  ok (record {
    event = base;
    version_source = source;
    version_dest = dest;
    process_name = text_field annotations annotation_process_name;
    source_process_units = source_units;
    destination_process_units = dest_units;
  })
