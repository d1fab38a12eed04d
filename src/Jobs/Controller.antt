-- ===== src/Jobs/Controller.antt =====
-- internal/controllers/job_controller.go, NewJobChart and NewJobChartConfig of internal/chart/job_chart.go, and the
-- names of the jobs' configmaps of internal/templates/storage.go.
pub mod Outcome
use ketch.Base.{
  String, Bool, true, false, List, [], ◌∷◌, ◌++◌, Option, none, some, ℤ, Dict, Result, ok, err,
  Error, message, ◌==◌, not, if◌then◌else◌, concat, itoa,
}
use ketch.App.{Time, ConditionStatus, condition_true, condition_false}
use ketch.App.Canary.{Emitted, EventType, normal, warning}
use ketch.Chart.Application.{ChartConfig}
use ketch.Controllers.Pods.{is_not_found, uninstall_helm_chart}
use ketch.Jobs.{Job, JobSpec, set_job_condition}

-- `JobChart`, but for the group, which is set when the program starts.
pub record JobChart : Type 0 where
  pub spec : JobSpec
  pub templates : Dict String

unfoldable pub new_job_chart : Job → Dict String → JobChart
new_job_chart job templates = record { spec = job.spec; templates = templates }

unfoldable pub new_job_chart_config : Job → ChartConfig
unfolding itoa
new_job_chart_config job = record {
  version = concat ("v0.0." ∷ itoa job.generation ∷ []);
  description = job.spec.description;
  app_name = job.spec.name;
  app_version =
      if job.spec.version == "" then concat ("v" ∷ itoa job.generation ∷ []) else job.spec.version;
  deployment_versions = job.generation ∷ [];
}

-- What a reconcile of a job asks of its surroundings; `format` is fmt.Errorf of a text and no arguments.
pub record JobWorld : Type 0 where
  pub templates : String → Result (Dict String)
  pub helm : String → Option Error
  pub update_chart : JobChart → ChartConfig → Option Error
  pub delete_chart : String → Option Error
  pub update : Job → Option Error
  pub update_status : Job → Option Error
  pub time : Time
  pub error_text : Error → String
  pub format : String → String
  pub group : String
  pub contains_finalizer : Job → Bool
  pub add_finalizer : Job → Job
  pub remove_finalizer : Job → Job

-- `reconcileResult`
pub record ReconcileResult : Type 0 where
  pub status : ConditionStatus
  pub message : String

-- What a reconcile did: the jobs it wrote, the last one first, the events, the chart it installed, the chart
-- it deleted, the status it wrote; and its error.
pub record JobReconciled : Type 0 where
  pub written : List Job
  pub events : List Emitted
  pub installed : Option (JobChart × ChartConfig)
  pub deleted : Option String
  pub status : Option Job
  pub error : Option Error

abbrev pub no_effect : JobReconciled
no_effect = record {
  written = [];
  events = [];
  installed = none;
  deleted = none;
  status = none;
  error = none;
}

abbrev pub stopped : JobReconciled → Error → JobReconciled
stopped r e = record r { error = some e }

-- `JobConfigMapName` and `CronJobConfigMapName`
abbrev pub config_map_name : Job → String
config_map_name job = if job.spec.schedule == "" then "job-templates" else "cronjob-templates"

abbrev pub refused : String → ReconcileResult
refused text = record { status = condition_false; message = text }

module _ (world : JobWorld) where
  abbrev update_chart :
      JobChart → ChartConfig → Option Error → ReconcileResult × Option (JobChart × ChartConfig)
  update_chart chart config (some e) =
      (refused (concat ("failed to update helm chart: " ∷ world.error_text e ∷ [])), none)
  update_chart chart config none =
      (record { status = condition_true; message = "" }, some (chart, config))

  -- `reconcile`, with the chart that it installs
  unfoldable pub reconcile_job : Job → ReconcileResult × Option (JobChart × ChartConfig)
  unfolding new_job_chart new_job_chart_config
  reconcile_job job =
      if job.spec.namespace == ""
      then (
        refused (concat ("job \"" ∷ job.name ∷ "\" is not linked to a kubernetes namespace" ∷ [])),
        none,
      )
      else elim (world.templates (config_map_name job)) [
        | err e ↦ (
          refused (
              concat (
                "failed to read configmap with the app's chart templates: "
                ∷ world.error_text e
                ∷ [])),
          none,
        )
        | ok tpls ↦ elim (world.helm job.spec.namespace) [
          | some e ↦ (refused (world.error_text e), none)
          | none ↦
              (let chart = new_job_chart job tpls in
                let config = new_job_chart_config job in
                update_chart chart config (world.update_chart chart config))
        ]
      ]

  abbrev outcome_event : EventType → Job → String → Emitted
  outcome_event event_type job text = record {
    annotations = [];
    event_type = event_type;
    reason = job.name;
    text = text;
  }

  -- Whether a result makes the reconcile run again.
  abbrev is_refused : ConditionStatus → Bool
  is_refused condition_false = true
  is_refused _ = false

  abbrev write_status : Job → JobReconciled → Option Error → JobReconciled
  write_status job r (some e) = stopped r e
  write_status job r none = record r { status = some job }

  -- The result of `reconcile` as an event and an error.
  abbrev pub reported : Job → ReconcileResult × Option (JobChart × ChartConfig) → JobReconciled
  reported job (result, installed) =
      let refusal = is_refused result.status in
      record no_effect {
        events =
            (if refusal
              then outcome_event warning job (world.format result.message)
              else outcome_event normal job "success")
            ∷ [];
        installed = installed;
        error = if refusal then some (message (world.format result.message)) else none;
      }

  -- The condition is set and written, too.
  unfoldable pub report_job :
      Job → ReconcileResult × Option (JobChart × ChartConfig) → JobReconciled
  unfolding set_job_condition
  report_job job r =
      let job' = set_job_condition "Scheduled" r.0.status r.0.message world.time job in
      write_status job' (reported job r) (world.update_status job')

  abbrev write_released : Job → JobReconciled → Option Error → JobReconciled
  write_released job r (some e) = stopped r e
  write_released job r none = record r { written = job ∷ [] }

  unfoldable pub release_job : Job → JobReconciled → JobReconciled
  release_job job r =
      let job' = world.remove_finalizer job in write_released job' r (world.update job')

  -- `deleteChart`
  unfoldable pub delete_job_chart : Job → JobReconciled
  unfolding uninstall_helm_chart release_job
  delete_job_chart job =
      if uninstall_helm_chart (concat (world.group ∷ "/dont-uninstall-helm-chart" ∷ []))
        job.annotations
      then (elim (world.helm job.spec.namespace) [
        | some e ↦ stopped no_effect e
        | none ↦ elim (world.delete_chart job.name) [
          | some e ↦ stopped no_effect e
          | none ↦ release_job job (record no_effect { deleted = some job.name })
        ]
      ])
      else release_job job no_effect

  unfoldable pub reconcile_or_delete_job : Job → JobReconciled
  unfolding delete_job_chart report_job reconcile_job
  reconcile_or_delete_job job = elim job.deletion_timestamp [
    | some t ↦ delete_job_chart job
    | none ↦ report_job job (reconcile_job job)
  ]

  abbrev hold_job : Job → Option Error → JobReconciled
  hold_job job (some e) = stopped no_effect e
  hold_job job none =
      let r = reconcile_or_delete_job job in record r { written = r.written ++ (job ∷ []) }

  -- `Reconcile`, of what the client answers for the job
  unfoldable pub reconcile_job_request : Result Job → JobReconciled
  unfolding reconcile_or_delete_job is_not_found
  reconcile_job_request found = elim found [
    | err e ↦ if is_not_found e then no_effect else stopped no_effect e
    | ok job ↦
        if world.contains_finalizer job
        then reconcile_or_delete_job job
        else (let held = world.add_finalizer job in hold_job held (world.update held))
  ]
