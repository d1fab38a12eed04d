-- ===== src/Controllers/Canary.antt =====
-- The canary block of `reconcile` in internal/controllers/app_controller.go: wait for the pods of the new
-- deployment, roll back when they take too long, else step the canary.
pub mod Timeout
pub mod Refinement
use ketch.Base.{
  String, Bool, true, false, List, [], ◌∷◌, Option, none, some, ℤ, pos, Dict, Result, ok, err,
  Error, message, wrap, panic, ◌>>=◌, if◌then◌else◌,
}
use ketch.App.{Time, CanarySpec, AppDeploymentSpec, App}
use ketch.App.Canary.{CanaryResult, Emitted, do_canary, do_rollback, with_canary}
use ketch.Controllers.Pods.{Pod, ScaleTarget, check_pod_status, timeout_expired, hpa_target_map}

-- What the block asks of the cluster: the pods of a version of the app, the autoscalers of its namespace,
-- the clock, and the outcome of an update.
pub record Cluster : Type 0 where
  pub pods : String → ℤ → Result (List Pod)
  pub hpas : Result (List ScaleTarget)
  pub now : Time
  pub update : App → Option Error

-- The app as the block leaves it, what it wrote in order, the events, and how it ended; without an
-- error `reconcile` goes on.
pub record Block : Type 0 where
  pub app : App
  pub written : List App
  pub events : List Emitted
  pub use_timeout : Bool
  pub error : Option Error

abbrev pub failed : App → List App → Error → Block
failed app written e = record {
  app = app;
  written = written;
  events = [];
  use_timeout = false;
  error = some e;
}

-- The zero value of a canary spec.
abbrev pub empty_canary : CanarySpec
empty_canary = record {
  steps = pos 0;
  step_weight = 0;
  step_time_interval = pos 0;
  next_scheduled_time = none;
  current_step = pos 0;
  active = false;
  started = none;
  target = none;
}

-- The update after `DoCanary`.
unfoldable pub write_step : Cluster → List App → CanaryResult → Block
write_step cluster written r =
    let failure : Option Error = elim r.error [ none ↦ cluster.update r.app | some e ↦ some e ] in
    elim failure [
      | some e ↦ record {
        app = r.app;
        written = written;
        events = r.events;
        use_timeout = false;
        error = some (wrap "canary update failed" e);
      }
      | none ↦ record {
        app = r.app;
        written = r.app ∷ written;
        events = r.events;
        use_timeout = false;
        error = none;
      }
    ]

-- The end of the block: the autoscalers, `DoCanary` and the update.
unfoldable pub step_canary : Cluster → List App → App → Block
unfolding hpa_target_map do_canary write_step
step_canary cluster written app = elim cluster.hpas [
  | err e ↦ failed app written (message "failed to find HPAs")
  | ok hpas ↦ write_step cluster written (do_canary app cluster.now (hpa_target_map app hpas))
]

-- The pods are not ready: wait, or roll back after the timeout.
unfoldable pub not_ready : Cluster → App → Error → Block
unfolding timeout_expired do_rollback step_canary
not_ready cluster app e = elim (timeout_expired app.spec.canary.started cluster.now) [
  | err x ↦ failed app [] x
  | ok false ↦ record {
    app = app;
    written = [];
    events = [];
    use_timeout = true;
    error = some (wrap "canary update failed" e);
  }
  | ok true ↦ elim (do_rollback app) [
    | err x ↦ failed app [] x
    | ok rolled_back ↦ elim (cluster.update rolled_back) [
      | some x ↦ failed rolled_back [] (wrap "failed to update app crd" x)
      | none ↦ step_canary cluster (rolled_back ∷ []) rolled_back
    ]
  ]
]

-- The block for an app with a canary deployment.
unfoldable pub with_canary_deployment : Cluster → App → AppDeploymentSpec → Block
unfolding check_pod_status not_ready step_canary
with_canary_deployment cluster app dest =
    elim (check_pod_status app.name dest.version (cluster.pods app.name dest.version)).1 [
      | none ↦ step_canary cluster [] app
      | some e ↦ not_ready cluster app e
    ]

-- The block, for an app whose canary is active.
unfoldable pub canary_block : Cluster → App → Block
unfolding with_canary_deployment
canary_block cluster app = elim app.spec.deployments [
  | [] ↦ failed (with_canary app empty_canary []) [] (message "no canary deployment found")
  | source ∷ others ↦ elim others [
    | [] ↦
        failed (with_canary app empty_canary (source ∷ [])) []
          (message "no canary deployment found")
    | dest ∷ rest ↦ with_canary_deployment cluster app dest
  ]
]
