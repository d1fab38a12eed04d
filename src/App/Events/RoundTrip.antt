-- ===== src/App/Events/RoundTrip.antt =====
-- Reading the annotations of a canary event gives the event back.
use ketch.Base.{
  ℕ, ◌<◌, String, [], ℤ, pos, InRange, to_uint8, Dict, lookup, insert, itoa, atoi-itoa, ok, some,
  ◌≡◌, refl, arith,
}
use ketch.App.{AppDeploymentSpec, App}
use ketch.App.Events.{
  annotation_development_version, annotation_step, annotation_version_source,
  annotation_version_dest, annotation_weight_source, annotation_weight_dest,
  annotation_process_units_source, annotation_process_units_dest, CanaryEvent, last_version,
  new_canary_event, text_field, int_field, canary_event_from_annotations,
  new_canary_next_step_event, canary_next_step_event_from_annotations,
}
use ketch.App.Events.TargetChange.{
  new_canary_target_change_event, canary_target_change_event_from_annotations,
}

-- The fields that the annotations carry; the read event has no annotations of its own.
abbrev pub bare : CanaryEvent → CanaryEvent
bare e = record e { annotations = [] }

to_uint8-pos : (w : ℕ) → w < 256 → to_uint8 (pos w) ≡ w
unfolding to_uint8
to_uint8-pos w h = omega arith

read_int :
    (annotations : Dict String) (key : String) (x : ℤ)
    → lookup key annotations ≡ some (itoa x)
    → InRange x
    → int_field annotations key ≡ ok x
unfolding int_field
read_int annotations key x e h = ground (arith, atoi-itoa x h)

-- A canary event is read back from its annotations.
pub canary_event-round_trip :
    (app : App) (event desc : String)
    → InRange (last_version app.spec.deployments)
    → canary_event_from_annotations (new_canary_event app event desc).annotations
      ≡ ok (bare (new_canary_event app event desc))
unfolding canary_event_from_annotations new_canary_event text_field lookup
canary_event-round_trip app event desc h =
    let a = (new_canary_event app event desc).annotations in
    rw (read_int a annotation_development_version (last_version app.spec.deployments) refl h)

module _ (app : App) (source dest : AppDeploymentSpec)
    (version : InRange (last_version app.spec.deployments))
    (source_version : InRange source.version) (dest_version : InRange dest.version) where
  -- A next-step event is read back from its annotations: step, versions and weights.
  pub next_step-round_trip :
      InRange app.spec.canary.current_step
      → source.routing_settings.weight < 256
      → dest.routing_settings.weight < 256
      → let e = new_canary_next_step_event app source dest in
        canary_next_step_event_from_annotations e.event.annotations
        ≡ ok (record e { event = bare e.event })
  unfolding canary_next_step_event_from_annotations new_canary_next_step_event new_canary_event
      text_field lookup insert
  next_step-round_trip h w v = rw (
    read_int _ annotation_development_version (last_version app.spec.deployments) refl version,
    read_int _ annotation_step app.spec.canary.current_step refl h,
    read_int _ annotation_version_source source.version refl source_version,
    read_int _ annotation_version_dest dest.version refl dest_version,
    read_int _ annotation_weight_source (pos source.routing_settings.weight) refl (omega arith),
    read_int _ annotation_weight_dest (pos dest.routing_settings.weight) refl (omega arith),
    to_uint8-pos source.routing_settings.weight w,
    to_uint8-pos dest.routing_settings.weight v,
  )

  -- A target-change event is read back from its annotations: versions, process and units.
  pub target_change-round_trip :
      (process_name : String) (source_units dest_units : ℤ)
      → InRange source_units
      → InRange dest_units
      → let e =
          new_canary_target_change_event app source dest process_name source_units dest_units in
        canary_target_change_event_from_annotations e.event.annotations
        ≡ ok (record e { event = bare e.event })
  unfolding canary_target_change_event_from_annotations new_canary_target_change_event
      new_canary_event text_field lookup insert
  target_change-round_trip process_name source_units dest_units h w = rw (
    read_int _ annotation_development_version (last_version app.spec.deployments) refl version,
    read_int _ annotation_version_source source.version refl source_version,
    read_int _ annotation_version_dest dest.version refl dest_version,
    read_int _ annotation_process_units_source source_units refl h,
    read_int _ annotation_process_units_dest dest_units refl w,
  )
