-- ===== src/Controllers/Rollout.antt =====
-- `watchDeployEvents` of internal/controllers/app_controller.go: the wait for a workload's generation, and
-- the start of the goroutine that watches its rollout.
use ketch.Base.{
  ℕ, String, true, false, List, [], ◌∷◌, ◌++◌, Option, none, some, ltb_ℤ, Result, ok, err, Error,
  wrap, message, if◌then◌else◌, concat, contains,
}
use ketch.App.{App}
use ketch.App.Canary.{Emitted, normal, warning}
use ketch.App.Reports.{new_app_deployment_event}
use ketch.Controllers.Pods.{is_canceled_error}
use ketch.Controllers.Workload.{Workload, check_workload_event}
use ketch.Controllers.Cancel.{CancelMap, CleanupFunc, replace_and_cancel_previous}
use ketch.Controllers.Progress.{emit, error_reason}

-- The rounds of the wait: what the client answers in each, and what ends the round: the poll timer, or, in
-- the last one, the ten-minute timer or the end of the context.
pub data Waits : Type 0 where
  tick : Result Workload → Waits → Waits
  expired : Result Workload → Waits
  over : Result Workload → Error → Waits

-- What is emitted by `Event` and `Eventf`, without annotations.
abbrev pub warn : String → Emitted
warn text = record { annotations = []; event_type = warning; reason = error_reason; text = text }

abbrev pub timeout_text : String
timeout_text = "timeout waiting for deployment generation to update"

module _ (error_text : Error → String) where
  -- The body of the wait up to its `select`; `next` is what the select leads to.
  abbrev pub wait_read :
      Result Workload → (Workload → List Emitted × Result Workload) → List Emitted × Result Workload
  wait_read answer next = elim answer [
    | err e ↦
        if is_canceled_error e
        then ([], err e)
        else (warn (concat ("error getting deployments: " ∷ error_text e ∷ [])) ∷ [], err e)
    | ok wl ↦ elim (check_workload_event wl.events) [ some e ↦ ([], err e) | none ↦ next wl ]
  ]

  unfoldable pub wait_generation : Waits → Workload → List Emitted × Result Workload
  unfolding is_canceled_error check_workload_event
  wait_generation (tick answer waits) wl = elim (ltb_ℤ wl.observed_generation wl.generation) [
    | false ↦ ([], ok wl)
    | true ↦ wait_read answer (λ w. wait_generation waits w)
  ]
  wait_generation (expired answer) wl = elim (ltb_ℤ wl.observed_generation wl.generation) [
    | false ↦ ([], ok wl)
    | true ↦ wait_read answer (λ w. (warn timeout_text ∷ [], err (message timeout_text)))
  ]
  wait_generation (over answer e) wl = elim (ltb_ℤ wl.observed_generation wl.generation) [
    | false ↦ ([], ok wl)
    | true ↦ wait_read answer (λ w. ([], err e))
  ]

  -- The app's events, the cancel map after the call, and the workload and the cleanup function that the
  -- goroutine starts with.
  pub record Launch : Type 0 where
    pub events : List Emitted
    pub cancel_map : CancelMap
    pub result : Result (Workload × CleanupFunc)

  -- errors.WithMessagef, when the cluster role lacks the permission to watch
  unfoldable pub with_hint : Error → Error
  unfolding contains
  with_hint e =
      if contains "unknown (get events)" (error_text e)
      then wrap "assure clusterrole 'manager-role' has 'watch' permissions on event resources" e
      else e

  -- `watchDeployEvents`; `watch` is the error of the client's Watch, `cancel` the new cancel function.
  unfoldable pub watch_deploy_events :
      App → String → Workload → Option Error → Waits → ℕ → CancelMap → Launch
  unfolding wait_generation with_hint replace_and_cancel_previous new_app_deployment_event
  watch_deploy_events app process_name wl watch waits cancel cm = elim watch [
    | some e ↦ record {
      events =
          emit warning (
            new_app_deployment_event app error_reason
              (concat (
                "error watching deployments for workload "
                ∷ wl.name
                ∷ ": "
                ∷ error_text (with_hint e)
                ∷ []))
              process_name "")
          ∷ [];
      cancel_map = cm;
      result = err (with_hint e);
    }
    | none ↦
        (let (events, waited) = wait_generation waits wl in
          elim waited [
            | err e ↦ record { events = events; cancel_map = cm; result = err e }
            | ok ready ↦
                (let (cm', cleanup) = replace_and_cancel_previous ready.name cancel cm in
                  record {
                    events =
                        events
                        ++ (emit normal (
                              new_app_deployment_event app "AppReconcileStarted"
                                (concat ("Updating units [" ∷ process_name ∷ "]" ∷ [])) process_name
                                "")
                            ∷ []);
                    cancel_map = cm';
                    result = ok (ready, cleanup);
                  })
          ])
  ]
