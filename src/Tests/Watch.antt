-- ===== src/Tests/Watch.antt =====
-- A rollout that is watched, its events, and the reconciles of an app that is deleted and of jobs.
use ketch.Base.{
  String, true, false, All, ◌++◌, List, [], ◌∷◌, length, any, none, some, ℤ, pos, ok, err, Error,
  not_found, message, ◌≡◌, ◌≢◌, refl, arith, ◌==◌,
}
use ketch.App.{App}
use ketch.App.Events.{last_version}
use ketch.App.Reports.{
  Event, new_app_deployment_event, app_deployment_event_from_watch_event,
  app_deployment_event_from_annotations, is_deployment_event,
}
use ketch.App.Reports.RoundTrip.{bare, shown, from_annotations-round_trip}
use ketch.Controllers.Pods.{check_pod_status}
use ketch.Controllers.Unready.{ListedPod, create_deploy_timeout_error}
use ketch.Controllers.Workload.{Workload}
use ketch.Controllers.Cancel.{new_cancel_map}
use ketch.Controllers.Canary.{Cluster}
use ketch.Controllers.Rollout.{over}
use ketch.Controllers.Watch.{Wake, polled, timed_out, Round, watching, complete, watch_func}
use ketch.Controllers.Watch.Ends.{Ends}
use ketch.Controllers.Watch.Reports.{watch_func_ends}
use ketch.Deploy.Wait.{is_awaited}
use ketch.Controllers.Reconcile.{World, idle, fail}
use ketch.Controllers.Reconcile.Request.{reconcile_request, conclude}
use ketch.Controllers.Reconcile.Request.Outcomes.{outcomes, conclude-is_awaited}
use ketch.Controllers.Reconcile.Request.Deletion.{
  AreFinalizers, IsDeletedOr, reconcile_request-IsDeletion,
}
use ketch.Tests.Data.{canary_app}

abbrev error_text : Error → String
error_text e = "error"

-- Three units: the first workload has one of them ready, the second has all.
abbrev rolling : ℤ → Workload
rolling ready = record {
  name = "hello-web-2";
  replicas = pos 3;
  updated_replicas = pos 3;
  ready_replicas = ready;
  generation = pos 1;
  observed_generation = pos 1;
  conditions = [];
  events = [];
}

abbrev unready : ListedPod
unready = record {
  name = "hello-1";
  phase = "Pending";
  status_message = none;
  conditions = ("Ready", "False") ∷ [];
  events = ok ("scheduled" ∷ "pulling" ∷ []);
}

abbrev round : Wake → Round
round wake = record {
  pods = ok [];
  wake = wake;
  late_pods = ok [];
  elapsed = "2m0s";
  listed = ok (unready ∷ []);
  workload = ok (rolling (pos 3));
}

timeout_text :
    create_deploy_timeout_error "healthcheck" "2m0s" (ok (unready ∷ []))
    ≡ message
        "timeout waiting healthcheck after 2m0s waiting for units: Pod hello-1: invalid pod phase \"Pending\" - last event: pulling"
unfolding create_deploy_timeout_error
timeout_text = refl

abbrev rounds : List Round
rounds = round polled ∷ round timed_out ∷ []

-- Three reports of the first round, one of the second and the outcome.
watch_func_tests :
    ((watch_func error_text canary_app "web" (rolling (pos 1)) rounds).ending
      ≡ complete (rolling (pos 3)))
    × (length (watch_func error_text canary_app "web" (rolling (pos 1)) rounds).events ≡ 5)
unfolding watch_func check_pod_status
watch_func_tests = (refl, refl)

watch_func_ends_example :
    (watch_func error_text canary_app "web" (rolling (pos 1)) rounds).ending ≢ watching
watch_func_ends_example = watch_func_ends error_text canary_app "web" (rolling (pos 1)) rounds refl

abbrev pulled : Event
pulled = record {
  name = "hello-web-2.1";
  reason = "Pulled";
  message = "image pulled";
  involved_object_name = "hello-web-2-x";
  involved_object_field_path = "spec.containers{web}";
  source_host = "node";
  source_component = "kubelet";
}

shown_tests :
    (shown pulled ≡ "hello-web-2-x - spec.containers{web} - image pulled [kubelet,node]")
    × (is_deployment_event pulled "hello-web-2" ≡ true)
unfolding is_deployment_event
shown_tests = (refl, refl)

from_annotations-round_trip_example :
    (app_deployment_event_from_annotations
        (new_app_deployment_event canary_app "AppReconcileError" "late" "web" "pod").annotations
      ≡ bare (new_app_deployment_event canary_app "AppReconcileError" "late" "web" "pod"))
    × (app_deployment_event_from_annotations
          (app_deployment_event_from_watch_event pulled canary_app "web").annotations
        ≡ record (bare (app_deployment_event_from_watch_event pulled canary_app "web")) {
          description = shown pulled;
        })
unfolding last_version
from_annotations-round_trip_example =
    from_annotations-round_trip canary_app "AppReconcileError" "late" "web" "pod" pulled
      (omega arith)

abbrev cluster : Cluster
cluster = record { pods = λ name version. ok []; hpas = ok []; now = pos 100; update = λ app. none }

abbrev with_finalizers : List String → App → App
with_finalizers finalizers app = record app { finalizers = finalizers }

abbrev pub world : World
world = record {
  cluster = cluster;
  configmap = err not_found;
  templates = λ name. ok [];
  helm = λ namespace. none;
  update_chart = λ chart config. none;
  delete_chart = λ name. none;
  update_status = λ app. none;
  generation = pos 1;
  kubernetes = none;
  workload = λ name. ok (rolling (pos 3));
  watch = λ name. none;
  waits = λ name. over (ok (rolling (pos 3))) (message "canceled");
  cancel = λ name. 1;
  group = "theketch.io";
  time = pos 100;
  error_text = error_text;
  contains_finalizer = λ app. any (λ f. f == "ketch-controller") app.finalizers;
  add_finalizer = λ app. with_finalizers ("ketch-controller" ∷ app.finalizers) app;
  remove_finalizer = with_finalizers [];
}

abbrev laws : AreFinalizers world
laws = record { contains-add = λ app. refl; contains-remove = λ app. refl; add_rest = λ app. refl }

abbrev deleted_app : App
deleted_app = record canary_app { deletion_timestamp = some (pos 7) }

reconcile_request-IsDeletion_example :
    IsDeletedOr world laws deleted_app (reconcile_request world new_cancel_map (ok deleted_app))
reconcile_request-IsDeletion_example =
    reconcile_request-IsDeletion world laws deleted_app new_cancel_map refl

conclude-is_awaited_example :
    ((conclude world (fail not_found (idle new_cancel_map canary_app))).events
      ≡ [] ++ outcomes world (fail not_found (idle new_cancel_map canary_app)))
    × All
        (λ e. is_awaited canary_app e ≡ false)
        (outcomes world (fail not_found (idle new_cancel_map canary_app)))
conclude-is_awaited_example =
    conclude-is_awaited world (fail not_found (idle new_cancel_map canary_app)) canary_app
