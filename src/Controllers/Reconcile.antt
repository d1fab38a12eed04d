-- ===== src/Controllers/Reconcile.antt =====
-- `reconcile` of internal/controllers/app_controller.go, and IngressConfigMapName of internal/templates/storage.go. The app that
-- the client gets is the state; an update leaves it as it was written.
pub mod Request
pub mod Refinement
use ketch.Base.{
  ℕ, String, Bool, true, false, List, [], ◌∷◌, ◌++◌, Option, none, some, ℤ, pos, Dict, Result, ok,
  err, Error, wrap, message, ◌>>=◌, ◌⊎◌, inl, inr, ◌==◌, ◌&&◌, ◌||◌, not, if◌then◌else◌, concat,
  itoa,
}
use ketch.App.{
  Time, IngressControllerSpec, ProcessSpec, AppDeploymentSpec, App, condition_true, condition_false,
}
use ketch.App.Canary.{Emitted, EventType, normal, warning}
use ketch.App.Labels.{update_app_labels_for_ingress}
use ketch.App.Ports.{exposed_ports}
use ketch.App.Reports.{AppReconcileOutcome, outcome_success, outcome_fail}
use ketch.App.Status.{set_condition, new_ingress_controller_spec}
use ketch.Chart.Application.{
  Options, ApplicationChart, ChartConfig, with_exposed_ports, new_chart, new_chart_config,
}
use ketch.Controllers.Pods.{
  is_conflict_error, is_canceled_error, uninstall_helm_chart, reconcile_timeout,
}
use ketch.Controllers.Workload.{Workload}
use ketch.Controllers.Cancel.{CancelMap}
use ketch.Controllers.Canary.{Cluster, Block, canary_block}
use ketch.Controllers.Rollout.{Launch, Waits, watch_deploy_events}

-- What a reconcile asks of its surroundings: the API server, the templates, Helm, the watch of a workload,
-- the clock, and controllerutil's functions for ketch's finalizer.
pub record World : Type 0 where
  pub cluster : Cluster
  pub configmap : Result (Option (Dict String))
  pub templates : String → Result (Dict String)
  pub helm : String → Option Error
  pub update_chart : ApplicationChart → ChartConfig → Option Error
  pub delete_chart : String → Option Error
  pub update_status : App → Option Error
  pub generation : ℤ
  pub kubernetes : Option Error
  pub workload : String → Result Workload
  pub watch : String → Option Error
  pub waits : String → Waits
  pub cancel : String → ℕ
  pub group : String
  pub time : Time
  pub error_text : Error → String
  pub contains_finalizer : App → Bool
  pub add_finalizer : App → App
  pub remove_finalizer : App → App

-- The app as a reconcile leaves it and what it did: the apps it wrote, the last one first, the events, the
-- chart it installed, the chart it deleted, the status it wrote; then its result.
pub record Reconciled : Type 0 where
  pub app : App
  pub written : List App
  pub events : List Emitted
  pub installed : Option (ApplicationChart × ChartConfig)
  pub deleted : Option String
  pub status : Option App
  pub cancel_map : CancelMap
  pub requeue_after : Option ℤ
  pub error : Option Error

abbrev pub idle : CancelMap → App → Reconciled
idle cm app = record {
  app = app;
  written = [];
  events = [];
  installed = none;
  deleted = none;
  status = none;
  cancel_map = cm;
  requeue_after = none;
  error = none;
}

abbrev pub fail : Error → Reconciled → Reconciled
fail e r = record r { error = some e }

-- `IngressConfigMapName`
unfoldable pub ingress_config_map_name : String → String
ingress_config_map_name ingress = concat ("ingress-" ∷ ingress ∷ "-templates" ∷ [])

abbrev pub last_of : List AppDeploymentSpec → Option AppDeploymentSpec
last_of [] = none
last_of (d ∷ []) = some d
last_of (d ∷ e ∷ ds) = last_of (e ∷ ds)

module _ (world : World) where
  abbrev pub workload_name : App → AppDeploymentSpec → ProcessSpec → String
  workload_name app d p = concat (app.name ∷ "-" ∷ p.name ∷ "-" ∷ itoa d.version ∷ [])

  -- `useTimeout` is a requeue after the default timeout.
  abbrev use_timeout : Reconciled → Reconciled
  use_timeout r = record r { requeue_after = some reconcile_timeout }

  -- The loop over the processes of the last deployment, and the requeue after it.
  unfoldable pub watch_processes : AppDeploymentSpec → List ProcessSpec → Reconciled → Reconciled
  unfolding watch_deploy_events itoa
  watch_processes d [] r = use_timeout r
  watch_processes d (p ∷ ps) r = elim world.kubernetes [
    | some e ↦ fail e r
    | none ↦ elim (world.workload (workload_name r.app d p)) [
      | err e ↦ fail e r
      | ok wl ↦
          (let launch =
              watch_deploy_events world.error_text r.app p.name wl (world.watch wl.name)
                (world.waits wl.name) (world.cancel wl.name) r.cancel_map in
            let r' = record r {
              events = r.events ++ launch.events;
              cancel_map = launch.cancel_map;
            } in
            elim launch.result [
              | err e ↦ fail (wrap "failed to get deploy events" e) r'
              | ok started ↦ watch_processes d ps r'
            ])
    ]
  ]

  -- The end of `reconcile`, after the chart.
  unfoldable pub watch_app : Reconciled → Reconciled
  unfolding watch_processes
  watch_app r = elim (last_of r.app.spec.deployments) [
    | none ↦ r
    | some d ↦ if not r.app.spec.canary.active then watch_processes d d.processes r else r
  ]

  -- The chart that was made of the app is installed, and its labels are updated.
  unfoldable pub install : ApplicationChart → Reconciled → Reconciled
  unfolding watch_app update_app_labels_for_ingress new_chart_config
  install chart r =
      let config = new_chart_config world.generation r.app in
      elim (world.update_chart chart config) [
        | some e ↦ fail (wrap "failed to update helm chart" e) r
        | none ↦ watch_app (record r {
          installed = some (chart, config);
          app = update_app_labels_for_ingress r.app;
        })
      ]

  abbrev of_block : CancelMap → Block → Reconciled
  of_block cm b = record (idle cm b.app) {
    written = b.written;
    events = b.events;
    requeue_after = if b.use_timeout then some reconcile_timeout else none;
    error = b.error;
  }

  -- The canary block if the canary is active, then the chart.
  unfoldable pub canary_and_install : ApplicationChart → CancelMap → App → Reconciled
  unfolding canary_block install
  canary_and_install chart cm app =
      if app.spec.canary.active
      then (let b = canary_block world.cluster app in
          elim b.error [ some e ↦ of_block cm b | none ↦ install chart (of_block cm b) ])
      else install chart (idle cm app)

  -- `reconcile`
  unfoldable pub reconcile : CancelMap → App → Reconciled
  unfolding canary_and_install new_chart with_exposed_ports exposed_ports ingress_config_map_name
  reconcile cm app =
      if app.spec.namespace == ""
      then fail
          (message
            (concat ("app \"" ∷ app.name ∷ "\" must be linked to a kubernetes namespace" ∷ [])))
          (idle cm app)
      else elim (world.templates
          (ingress_config_map_name app.spec.ingress.controller.ingress_type)) [
            | err e ↦
                fail (wrap "failed to read configmap with the app's chart templates" e)
                  (idle cm app)
            | ok tpls ↦
                elim (new_chart
                  (record {
                    exposed_ports = with_exposed_ports (exposed_ports app);
                    templates = tpls;
                  })
                  app) [
                    | err e ↦ fail e (idle cm app)
                    | ok chart ↦ elim (world.helm app.spec.namespace) [
                      | some e ↦ fail e (idle cm app)
                      | none ↦ canary_and_install chart cm app
                    ]
                  ]
          ]
