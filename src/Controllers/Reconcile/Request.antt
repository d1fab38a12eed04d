-- ===== src/Controllers/Reconcile/Request.antt =====
-- `Reconcile` and `deleteChart` of internal/controllers/app_controller.go, and GetIngressControllerSpec of
-- internal/api/v1beta1/ingress.go.
pub mod Deletion
pub mod Outcomes
use ketch.Base.{
  String, Bool, true, false, List, [], ◌∷◌, ◌++◌, Option, none, some, Result, ok, err, Error,
  message, ◌>>=◌, ◌⊎◌, inl, inr, ◌==◌, ◌||◌, if◌then◌else◌, concat,
}
use ketch.App.{IngressControllerSpec, App, condition_true, condition_false}
use ketch.App.Canary.{Emitted, EventType, normal, warning}
use ketch.App.Reports.{AppReconcileOutcome, outcome_success, outcome_fail}
use ketch.App.Status.{set_condition, new_ingress_controller_spec}
use ketch.Controllers.Pods.{
  is_not_found, is_conflict_error, is_canceled_error, uninstall_helm_chart,
}
use ketch.Controllers.Cancel.{CancelMap}
use ketch.Controllers.Reconcile.{World, Reconciled, idle, fail, reconcile}

module _ (world : World) where
  -- The app without its finalizer is written; the update may fail.
  abbrev pub written_as : App → Reconciled → Option Error → Reconciled
  written_as app r (some e) = fail e (record r { app = app })
  written_as app r none = record r { app = app; written = app ∷ [] }

  unfoldable pub release : App → Reconciled → Reconciled
  release app r =
      let app' = world.remove_finalizer app in written_as app' r (world.cluster.update app')

  -- `deleteChart`
  unfoldable pub delete_chart : CancelMap → App → Reconciled
  unfolding uninstall_helm_chart release
  delete_chart cm app =
      if uninstall_helm_chart (concat (world.group ∷ "/dont-uninstall-helm-chart" ∷ []))
        app.annotations
      then (elim (world.helm app.spec.namespace) [
        | some e ↦ fail e (idle cm app)
        | none ↦ elim (world.delete_chart app.name) [
          | some e ↦ fail e (idle cm app)
          | none ↦ release app (record (idle cm app) { deleted = some app.name })
        ]
      ])
      else release app (idle cm app)

  -- `GetIngressControllerSpec`
  unfoldable pub get_ingress_controller_spec : Result IngressControllerSpec
  unfolding new_ingress_controller_spec
  get_ingress_controller_spec = world.configmap >>= λ found. elim found [
    | none ↦ err (message "ingress configmap data is nil")
    | some m ↦ ok (new_ingress_controller_spec m)
  ]

  abbrev with_controller : App → IngressControllerSpec → App
  with_controller app c = record app {
    spec = record app.spec { ingress = record app.spec.ingress { controller = c } };
  }

  -- The ingress controller that an app without one gets.
  unfoldable pub complete_controller : App → Result App
  unfolding get_ingress_controller_spec is_not_found
  complete_controller app =
      let c = app.spec.ingress.controller in
      if c.ingress_type == "" || c.service_endpoint == "" || c.class_name == ""
      then (elim get_ingress_controller_spec [
        | ok found ↦ ok (with_controller app found)
        | err e ↦ if is_not_found e then ok app else err e
      ])
      else ok app

  abbrev outcome_event : EventType → String → Emitted
  outcome_event event_type text = record {
    annotations = [];
    event_type = event_type;
    reason = "AppReconcileOutcome";
    text = text;
  }

  abbrev outcome_of : App → AppReconcileOutcome
  outcome_of app = record { app_name = app.name; deployment_count = app.spec.deployments_count }

  -- The outcome of `reconcile` as an event and as a condition.
  abbrev pub report_as : Reconciled → Option Error → Reconciled
  report_as r (some e) = record r {
    events =
        r.events
        ++ (outcome_event warning (outcome_fail (outcome_of r.app) (world.error_text e)) ∷ []);
    app = set_condition "Scheduled" condition_false (world.error_text e) world.time r.app;
  }
  report_as r none = record r {
    events = r.events ++ (outcome_event normal (outcome_success (outcome_of r.app)) ∷ []);
    app = set_condition "Scheduled" condition_true "" world.time r.app;
  }

  unfoldable pub report : Reconciled → Reconciled
  unfolding set_condition outcome_success outcome_fail
  report r = report_as r r.error

  -- The requeue at the end: the step interval of an active canary, or the default timeout.
  abbrev requeue : Reconciled → Reconciled
  requeue r = record r {
    requeue_after = elim r.requeue_after [
      | some t ↦ some t
      | none ↦ if r.app.spec.canary.active then some r.app.spec.canary.step_time_interval else none
    ];
  }

  -- An update of the status that failed: a conflict is not shown to the user.
  abbrev pub status_failed : Reconciled → Error → Bool → Reconciled
  status_failed r e true = fail e (record r { requeue_after = none })
  status_failed r e false = fail e (record r {
    events =
        r.events
        ++ (outcome_event warning (outcome_fail (outcome_of r.app) (world.error_text e)) ∷ []);
    requeue_after = none;
  })

  abbrev pub status_written : Reconciled → Option Error → Reconciled
  status_written r none = requeue (record r { status = some r.app })
  status_written r (some e) = status_failed r e (is_conflict_error e)

  unfoldable pub write_status : Reconciled → Reconciled
  unfolding is_conflict_error outcome_fail
  write_status r = status_written r (world.update_status r.app)

  -- Whether an error of `reconcile` is not shown to the user.
  abbrev pub is_hidden : Option Error → Bool
  is_hidden none = false
  is_hidden (some e) = is_conflict_error e || is_canceled_error e

  -- The end of `Reconcile`.
  unfoldable pub conclude : Reconciled → Reconciled
  unfolding report write_status is_canceled_error
  conclude r =
      if is_hidden r.error then record r { requeue_after = none } else write_status (report r)

  abbrev pub deletes : App → Bool
  deletes app = elim app.deletion_timestamp [ none ↦ false | some t ↦ true ]

  abbrev wrote : List App → Reconciled → Reconciled
  wrote apps r = record r { written = r.written ++ apps }

  -- The rest of `Reconcile` for an app with a finalizer.
  unfoldable pub reconcile_or_delete : CancelMap → App → Reconciled
  unfolding reconcile delete_chart conclude
  reconcile_or_delete cm app =
      if deletes app then delete_chart cm app else conclude (reconcile world cm app)

  -- The app with its finalizer was written, or could not be.
  abbrev pub hold : CancelMap → App → Option Error → Reconciled
  hold cm app (some e) = fail e (idle cm app)
  hold cm app none = wrote (app ∷ []) (reconcile_or_delete cm app)

  -- An app whose ingress controller is filled in.
  unfoldable pub with_finalizer : CancelMap → App → Reconciled
  unfolding reconcile_or_delete
  with_finalizer cm app =
      if world.contains_finalizer app
      then reconcile_or_delete cm app
      else (let held = world.add_finalizer app in hold cm held (world.cluster.update held))

  -- `Reconcile`, of what the client answers for the app; without an app there is nothing to do.
  unfoldable pub reconcile_request : CancelMap → Result App → Option Error ⊎ Reconciled
  unfolding complete_controller with_finalizer is_not_found
  reconcile_request cm found = elim found [
    | err e ↦ inl (if is_not_found e then none else some e)
    | ok app ↦ elim (complete_controller app) [
      | err e ↦ inl (some e)
      | ok app' ↦ inr (with_finalizer cm app')
    ]
  ]
