-- ===== src/App/Canary.antt =====
-- Canary deployments in internal/api/v1beta1/app_types.go: `DoCanary` and `DoRollback`. The recorder's calls
-- are the list of emitted events, in order; the lines for the logger are left out. A `range` over the
-- target map visits it in the order of the list.
pub mod Step
pub mod Finish
pub mod Run
use ketch.Base.{
  ℕ, ◌+◌, ◌-◌, ◌%◌, String, Bool, true, false, List, [], ◌∷◌, ◌++◌, map, Option, none, some, ℤ, pos,
  ◌+ℤ◌, add_int, beq_ℤ, leb_ℤ, ltb, leb, beq, div_float, mul_float, floor, Dict, lookup, Result, ok,
  err, Error, message, panic, ◌==◌, ◌||◌, not, if◌then◌else◌,
}
use ketch.App.{Time, ProcessSpec, AppDeploymentSpec, RoutingSettings, CanarySpec, App}
use ketch.App.Units.{with_units, with_processes, set_units_of, is_some}
use ketch.App.Scaling.{
  get_updated_units, with_weight, lower, raise, Stage, scale_targets, scale, finish_dest, is_last,
}
use ketch.App.Events.{
  CanaryEvent, new_canary_event, canary_message, CanaryNextStepEvent, new_canary_next_step_event,
  next_step_message,
}
use ketch.App.Events.TargetChange.{
  CanaryTargetChangeEvent, new_canary_target_change_event, target_change_message,
}

pub data EventType : Type 0 where
  normal warning : EventType

-- One call of `AnnotatedEventf`.
pub record Emitted : Type 0 where
  pub annotations : Dict String
  pub event_type : EventType
  pub reason : String
  pub text : String

emit : EventType → CanaryEvent → String → Emitted
emit event_type e text = record {
  annotations = e.annotations;
  event_type = event_type;
  reason = e.name;
  text = text;
}

emit_canary : EventType → App → String → String → Emitted
unfolding emit
emit_canary event_type app name desc =
    let e = new_canary_event app name desc in emit event_type e (canary_message e)

emit_next_step : App → AppDeploymentSpec → AppDeploymentSpec → Emitted
unfolding emit
emit_next_step app source dest =
    let e = new_canary_next_step_event app source dest in emit normal e.event (next_step_message e)

emit_target_change : App → AppDeploymentSpec → AppDeploymentSpec → String → ℤ × ℤ → Emitted
unfolding emit
emit_target_change app source dest process_name (source_units, dest_units) =
    let e = new_canary_target_change_event app source dest process_name source_units dest_units in
    emit normal e.event (target_change_message e)

-- The events of that loop.
scale_events : App → Dict Bool → Dict ℕ → Stage → List Emitted
unfolding emit_target_change
scale_events app disabled [] s = []
scale_events app disabled ((process, target) ∷ targets) s =
    let rest = scale_events app disabled targets s in
    elim (lookup process disabled) [
      | some _ ↦ rest
      | none ↦
          emit_target_change app s.source s.dest process
            (get_updated_units s.source.routing_settings.weight target)
          ∷ rest
    ]

pub record CanaryResult : Type 0 where
  pub app : App
  pub events : List Emitted
  pub error : Option Error

-- The app with another canary spec and other deployments.
abbrev pub with_canary : App → CanarySpec → List AppDeploymentSpec → App
with_canary app canary ds = record app {
  spec = record app.spec { canary = canary; deployments = ds };
}

-- The stage of a due step, before the test for the last one.
unfoldable pub step_stage : CanarySpec → Dict Bool → AppDeploymentSpec → AppDeploymentSpec → Stage
unfolding scale
step_stage canary disabled source dest =
    scale disabled canary.target
      (record { source = lower canary.step_weight source; dest = raise canary.step_weight dest })

-- The canary spec after a step that is not the last one, and after the last one.
unfoldable pub next_canary : Time → CanarySpec → CanarySpec
next_canary scheduled canary = record canary {
  next_scheduled_time = some (scheduled +ℤ canary.step_time_interval);
  current_step = add_int canary.current_step (pos 1);
}

unfoldable pub finished_canary : CanarySpec → CanarySpec
finished_canary canary = record canary {
  active = false;
  current_step = add_int canary.steps (pos 1);
  next_scheduled_time = none;
}

-- The app after a due step.
unfoldable pub step_app :
    App → Time → Dict Bool → AppDeploymentSpec → AppDeploymentSpec → List AppDeploymentSpec → App
unfolding step_stage is_last finish_dest next_canary finished_canary
step_app app scheduled disabled source dest rest =
    let canary = app.spec.canary in
    let s = step_stage canary disabled source dest in
    if is_last canary s.dest
    then with_canary app (finished_canary canary) (finish_dest canary s.dest ∷ [])
    else with_canary app (next_canary scheduled canary) (s.source ∷ s.dest ∷ rest)

-- The events of a due step.
step_events :
    App → Dict Bool → AppDeploymentSpec → AppDeploymentSpec → List AppDeploymentSpec → List Emitted
unfolding emit_canary emit_next_step scale_events step_stage is_last
step_events app disabled source dest rest =
    let canary = app.spec.canary in
    let s : Stage = record {
      source = lower canary.step_weight source;
      dest = raise canary.step_weight dest;
    } in
    let app' = with_canary app canary (s.source ∷ s.dest ∷ rest) in
    (if beq_ℤ canary.current_step (pos 1)
      then emit_canary normal app "CanaryStarted" "started" ∷ []
      else [])
    ++ (emit_next_step app' s.source s.dest
        ∷ (elim canary.target [ none ↦ [] | some targets ↦ scale_events app' disabled targets s ]))
    ++ (if is_last canary (step_stage canary disabled source dest).dest
        then emit_canary normal app' "CanaryFinished" "finished" ∷ []
        else [])

step_due :
    App
    → Time
    → Dict Bool
    → Time
    → AppDeploymentSpec
    → AppDeploymentSpec
    → List AppDeploymentSpec
    → CanaryResult
unfolding step_app step_events
step_due app now disabled scheduled source dest rest =
    if leb_ℤ scheduled now
    then record {
      app = step_app app scheduled disabled source dest rest;
      events = step_events app disabled source dest rest;
      error = none;
    }
    else record { app = app; events = []; error = none }

-- The tests of `DoCanary` on the deployments and the scheduled time.
do_canary_active : App → Time → Dict Bool → List AppDeploymentSpec → CanaryResult
unfolding emit_canary step_due
do_canary_active app now disabled (source ∷ dest ∷ rest) =
    elim app.spec.canary.next_scheduled_time [
      | none ↦ record {
        app = app;
        events =
            emit_canary warning app "CanaryNoScheduledSteps"
              "error - canary triggered, but no scheduled steps"
            ∷ [];
        error = some (message "canary is active but the next step is not scheduled");
      }
      | some scheduled ↦ step_due app now disabled scheduled source dest rest
    ]
do_canary_active app now disabled _ = record {
  app = app;
  events =
      emit_canary warning app "CanaryNoDeployments"
        "error - canary needs more than 1 deployment to run"
      ∷ [];
  error = some (message "no canary deployment found");
}

-- `DoCanary`; the keys of `disabled` are the processes that an autoscaler scales.
unfoldable pub do_canary : App → Time → Dict Bool → CanaryResult
unfolding emit_canary do_canary_active
do_canary app now disabled =
    if app.spec.canary.active
    then do_canary_active app now disabled app.spec.deployments
    else record {
      app = app;
      events =
          emit_canary normal app "CanaryNotActive" "error - canary triggered, but not active" ∷ [];
      error = none;
    }

-- `DoRollback`; with fewer than two deployments an index is out of range.
unfoldable pub do_rollback : App → Result App
do_rollback app = elim app.spec.deployments [
  | [] ↦ err panic
  | source ∷ others ↦ elim others [
    | [] ↦ err panic
    | dest ∷ rest ↦ ok (
        with_canary app (record app.spec.canary { active = false })
          (with_weight 100 source ∷ with_weight 0 dest ∷ rest))
  ]
]
