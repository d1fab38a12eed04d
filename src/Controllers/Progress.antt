-- ===== src/Controllers/Progress.antt =====
-- The reports of a round of `watchFunc` of internal/controllers/app_controller.go, before its wait.
use ketch.Base.{
  String, Bool, true, false, List, [], ◌∷◌, ◌++◌, Option, none, some, ℤ, pos, beq_ℤ, ltb_ℤ, leb_ℤ,
  Result, Error, ◌==◌, ◌&&◌, ◌||◌, not, any, sub_int, if◌then◌else◌, concat, itoa,
}
use ketch.App.{App}
use ketch.App.Canary.{Emitted, EventType, normal, warning}
use ketch.App.Events.{last_version}
use ketch.App.Reports.{AppDeploymentEvent, new_app_deployment_event}
use ketch.Controllers.Pods.{Pod, check_pod_status}
use ketch.Controllers.Workload.{WorkloadCondition, Workload}

-- The variables of the loop; `healthcheck` tells whether the timer was started.
pub record Watching : Type 0 where
  pub workload : Workload
  pub old_updated_replicas : ℤ
  pub old_ready_units : ℤ
  pub old_pending_termination : ℤ
  pub healthcheck : Bool

-- One call of `AnnotatedEventf` with an event and its reason.
abbrev pub emit : EventType → AppDeploymentEvent → Emitted
emit event_type e = record {
  annotations = e.annotations;
  event_type = event_type;
  reason = e.reason;
  text = e.description;
}

abbrev pub update_reason : String
update_reason = "AppReconcileUpdate"

abbrev pub error_reason : String
error_reason = "AppReconcileError"

abbrev pub complete_reason : String
complete_reason = "AppReconcileComplete"

-- The condition of a rollout that is late.
abbrev pub is_late : List WorkloadCondition → Bool
is_late cs = any (λ c. c.type == "Progressing" && c.reason == "ProgressDeadlineExceeded") cs

-- The name of a workload needs no escape in `%q`.
abbrev pub late_text : Workload → String
late_text wl = concat ("deployment " ∷ quoted wl.name ∷ " exceeded its progress deadline" ∷ [])
  where
    quoted : String → String
    quoted name = concat ("\"" ∷ name ∷ "\"" ∷ [])

-- Where the loop stops.
abbrev pub is_complete : ℤ → Workload → Bool
is_complete spec_replicas wl =
    beq_ℤ wl.ready_replicas spec_replicas && beq_ℤ wl.replicas spec_replicas

-- The pods of the last deployment.
abbrev pub pod_status : App → Result (List Pod) → String × Option Error
pod_status app pods = check_pod_status app.name (last_version app.spec.deployments) pods

module _ (app : App) (process_name : String) (spec_replicas : ℤ) where
  abbrev pub report : String → Emitted
  report desc = emit normal (new_app_deployment_event app update_reason desc process_name "")

  abbrev pub report_error : String → String → Emitted
  report_error desc pod_name =
      emit warning (new_app_deployment_event app error_reason desc process_name pod_name)

  unfoldable pub report_created : ℤ → ℤ → List Emitted
  unfolding itoa new_app_deployment_event
  report_created old updated =
      if beq_ℤ old updated
      then []
      else report (concat (itoa updated ∷ " of " ∷ itoa spec_replicas ∷ " new units created" ∷ []))
        ∷ []

  -- Whether the healthcheck timer is started in a round.
  unfoldable pub starts_healthcheck : Bool → ℤ → Result (List Pod) → Bool
  unfolding last_version check_pod_status
  starts_healthcheck healthcheck updated pods =
      if not healthcheck && beq_ℤ updated spec_replicas
      then (elim ((pod_status app pods).1) [ none ↦ true | some e ↦ false ])
      else false

  unfoldable pub report_healthcheck : Bool → List Emitted
  unfolding itoa new_app_deployment_event
  report_healthcheck starts =
      if starts
      then report (concat ("waiting healthcheck on " ∷ itoa spec_replicas ∷ " created units" ∷ []))
        ∷ []
      else []

  unfoldable pub report_ready : ℤ → ℤ → List Emitted
  unfolding itoa new_app_deployment_event
  report_ready old ready =
      if not (beq_ℤ old ready) && leb_ℤ (pos 0) ready
      then report (concat (itoa ready ∷ " of " ∷ itoa spec_replicas ∷ " new units ready" ∷ [])) ∷ []
      else []

  unfoldable pub report_pending : ℤ → ℤ → List Emitted
  unfolding itoa new_app_deployment_event
  report_pending old pending =
      if not (beq_ℤ old pending) && ltb_ℤ (pos 0) pending
      then report (concat (itoa pending ∷ " old units pending termination" ∷ [])) ∷ []
      else []

  -- The reports of a round, and its variables after them.
  unfoldable pub observe : Result (List Pod) → Watching → List Emitted × Watching
  unfolding starts_healthcheck report_created report_healthcheck report_ready report_pending sub_int
  observe pods w =
      let wl = w.workload in
      let pending = sub_int wl.replicas wl.updated_replicas in
      let starts = starts_healthcheck w.healthcheck wl.updated_replicas pods in
      (
        report_created w.old_updated_replicas wl.updated_replicas
            ++ (report_healthcheck starts
                ++ (report_ready w.old_ready_units wl.ready_replicas
                    ++ report_pending w.old_pending_termination pending)),
        record {
          workload = wl;
          old_updated_replicas = wl.updated_replicas;
          old_ready_units = wl.ready_replicas;
          old_pending_termination = pending;
          healthcheck = w.healthcheck || starts;
        },
      )
