-- ===== src/App/Canary/Step.antt =====
-- One call of `DoCanary`: the cases in which it does nothing, and the step that is due.
use ketch.Base.{
  ◌+◌, ◌-◌, ◌%◌, Bool, [], ◌∷◌, none, some, leb_ℤ, Dict, ◌≡◌, arith, if◌then◌else◌, ◌&&◌,
}
use ketch.App.{Time, AppDeploymentSpec, App}
use ketch.App.Scaling.{Stage, lower, raise}
use ketch.App.Scaling.Frame.{scale-StageKeeps, KeepsRest-weight, KeepsRest-version}
use ketch.App.Canary.{step_stage, step_app, step_due, do_canary_active, do_canary}

-- The weights of the two deployments after a step, and what the step keeps.
pub stage_weights :
    (app : App) (disabled : Dict Bool) (source dest : AppDeploymentSpec)
    → let c = app.spec.canary in
      let s = step_stage c disabled source dest in
      (s.source.routing_settings.weight
        ≡ (source.routing_settings.weight + 256 - c.step_weight) % 256)
      × (s.dest.routing_settings.weight ≡ (dest.routing_settings.weight + c.step_weight) % 256)
      × (s.dest.version ≡ dest.version)
unfolding step_stage
stage_weights app disabled source dest =
    let c = app.spec.canary in
    let s : Stage = record {
      source = lower c.step_weight source;
      dest = raise c.step_weight dest;
    } in
    let h = scale-StageKeeps disabled c.target s in
    (
      KeepsRest-weight s.source _ h.source,
      KeepsRest-weight s.dest _ h.dest,
      KeepsRest-version s.dest _ h.dest,
    )

-- `DoCanary` steps exactly when the canary is active, has a second deployment and its time has
-- come; in every other case the app is as it was.
pub do_canary-app :
    (app : App) (now : Time) (disabled : Dict Bool)
    → (do_canary app now disabled).app ≡ (elim app.spec.canary.next_scheduled_time [
      | none ↦ app
      | some scheduled ↦ elim app.spec.deployments [
        | [] ↦ app
        | source ∷ others ↦ elim others [
          | [] ↦ app
          | dest ∷ rest ↦
              if app.spec.canary.active && leb_ℤ scheduled now
              then step_app app scheduled disabled source dest rest
              else app
        ]
      ]
    ])
unfolding do_canary do_canary_active step_due
do_canary-app app now disabled = ground arith
