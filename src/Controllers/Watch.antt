-- ===== src/Controllers/Watch.antt =====
-- `watchFunc` of internal/controllers/app_controller.go, the goroutine that watches a rollout. A round of
-- its loop is what the cluster and the timers answer in it; the loop waits at its top when no round is
-- left. `%v` of an error is the argument `error_text`.
pub mod Turns
pub mod Loop
pub mod Ends
pub mod Reports
use ketch.Base.{
  String, Bool, true, false, List, [], ◌∷◌, ◌++◌, Option, none, some, ℤ, pos, negsuc, ◌+ℤ◌, beq_ℤ,
  ltb_ℤ, leb_ℤ, Result, ok, err, Error, not_found, canceled, wrap, message, ◌==◌, ◌&&◌, ◌||◌, not,
  any, sub_int, if◌then◌else◌, concat, itoa,
}
use ketch.App.{App}
use ketch.App.Canary.{Emitted, EventType, normal, warning}
use ketch.App.Events.{last_version}
use ketch.App.Reports.{
  AppDeploymentEvent, Event, AppReconcileOutcome, new_app_deployment_event,
  app_deployment_event_from_watch_event, is_deployment_event, outcome_success,
}
use ketch.Controllers.Pods.{Pod, check_pod_status, is_canceled_error, is_not_found}
use ketch.Controllers.Unready.{ListedPod, create_deploy_timeout_error}
use ketch.Controllers.Workload.{WorkloadCondition, Workload}
use ketch.Controllers.Progress.{
  Watching, emit, update_reason, error_reason, complete_reason, is_late, late_text, is_complete,
  pod_status, report, report_error, report_created, starts_healthcheck, report_healthcheck,
  report_ready, report_pending, observe,
}

-- What ends the wait of a round: the poll timer, the watch's channel (closed, an event, another object),
-- the healthcheck timer, the timeout, the end of the context with its error.
pub data Wake : Type 0 where
  polled closed other : Wake
  seen : Event → Wake
  healthcheck_due timed_out : Wake
  done : Error → Wake

-- The pods at the round's start and end, how its wait ends, the time since the watch began and the pods that
-- are listed after a timeout, and the workload after the wait.
pub record Round : Type 0 where
  pub pods : Result (List Pod)
  pub wake : Wake
  pub late_pods : Result (List Pod)
  pub elapsed : String
  pub listed : Result (List ListedPod)
  pub workload : Result Workload

-- `watching` is a loop that goes on.
pub data Ending : Type 0 where
  watching : Ending
  complete : Workload → Ending
  failed : Error → Ending

pub record Watch : Type 0 where
  pub events : List Emitted
  pub ending : Ending

-- What a round comes to.
pub data Turn : Type 0 where
  stop : List Emitted → Error → Turn
  go : List Emitted → Watching → Turn

module _ (error_text : Error → String) (app : App) (process_name : String) (spec_replicas : ℤ) where
  -- The end of a round: the workload is read again.
  unfoldable pub read_again : Round → List Emitted → Watching → Turn
  unfolding is_canceled_error is_not_found last_version check_pod_status new_app_deployment_event
  read_again r events w = elim r.workload [
    | ok wl ↦ go events (record w { workload = wl })
    | err e ↦
        if is_canceled_error e
        then stop events e
        else if not (is_not_found e)
        then stop
            (events
              ++ (report_error app process_name spec_replicas
                    (concat ("error getting deployments: " ∷ error_text e ∷ []))
                    (pod_status app r.late_pods).0
                  ∷ []))
            e
        else go events w
  ]

  -- A timeout, of which `label` tells what was waited for.
  abbrev time_out : Round → String → String → Turn
  time_out r text label =
      let e = create_deploy_timeout_error label r.elapsed r.listed in
      stop
        (report_error app process_name spec_replicas (concat (text ∷ error_text e ∷ []))
            (pod_status app r.late_pods).0
          ∷ [])
        e

  -- The rest of a round. A timer that was not started never fires: its channel is nil, and the poll
  -- timer ends the wait.
  unfoldable pub select : Round → Watching → Turn
  unfolding read_again last_version check_pod_status new_app_deployment_event
      app_deployment_event_from_watch_event is_deployment_event create_deploy_timeout_error
  select r w = elim r.wake [
    | polled ↦ read_again r [] w
    | closed ↦ read_again r [] w
    | other ↦ read_again r [] w
    | seen e ↦
        if is_deployment_event e w.workload.name
        then read_again r
            (record {
              annotations = (app_deployment_event_from_watch_event e app process_name).annotations;
              event_type = normal;
              reason = update_reason;
              text = (app_deployment_event_from_watch_event e app process_name).description;
            }
              ∷ [])
            w
        else read_again r [] w
    | healthcheck_due ↦
        if w.healthcheck
        then time_out r "error waiting for healthcheck: " "healthcheck"
        else read_again r [] w
    | timed_out ↦ time_out r "deployment timeout: " "full rollout"
    | done e ↦ stop [] e
  ]

  abbrev pub report_outcome : Workload → Emitted
  report_outcome wl = emit normal (
      new_app_deployment_event app complete_reason
        (outcome_success (record { app_name = app.name; deployment_count = wl.ready_replicas }))
        process_name "")

  -- More events in front.
  abbrev pub after : List Emitted → Watch → Watch
  after events watch = record { events = events ++ watch.events; ending = watch.ending }

  unfoldable pub watch_loop : List Round → Watching → Watch
  unfolding observe select new_app_deployment_event outcome_success
  watch_loop [] w = record { events = []; ending = watching }
  watch_loop (r ∷ rs) w = elim (is_late w.workload.conditions) [
    | true ↦ record {
      events = report_error app process_name spec_replicas (late_text w.workload) "" ∷ [];
      ending = failed (message (late_text w.workload));
    }
    | false ↦ elim (is_complete spec_replicas w.workload) [
      | true ↦ record {
        events =
            (observe app process_name spec_replicas r.pods w).0 ++ (report_outcome w.workload ∷ []);
        ending = complete w.workload;
      }
      | false ↦ elim (select r (observe app process_name spec_replicas r.pods w).1) [
        | stop events e ↦ record {
          events = (observe app process_name spec_replicas r.pods w).0 ++ events;
          ending = failed e;
        }
        | go events w' ↦
            after ((observe app process_name spec_replicas r.pods w).0 ++ events) (watch_loop rs w')
      ]
    ]
  ]

-- The variables before the first round.
abbrev pub start : Workload → Watching
start wl = record {
  workload = wl;
  old_updated_replicas = negsuc 0;
  old_ready_units = negsuc 0;
  old_pending_termination = negsuc 0;
  healthcheck = false;
}

-- `watchFunc`, for the workload's replicas
unfoldable pub watch_func : (Error → String) → App → String → Workload → List Round → Watch
unfolding watch_loop
watch_func error_text app process_name wl rounds =
    watch_loop error_text app process_name wl.replicas rounds (start wl)
