-- ===== src/Controllers/Pods.antt =====
-- What the reconciler of internal/controllers/app_controller.go reads from the cluster, and utils.go:
-- `checkPodStatus`, `timeoutExpired`, `hpaTargetMap`, `isConflictError`, `isCanceledError` and
-- `uninstallHelmChart`.
use ketch.Base.{
  String, Bool, true, false, List, [], ◌∷◌, Option, none, some, ℤ, pos, ◌+ℤ◌, ltb_ℤ, Dict, lookup,
  insert, Result, ok, err, Error, not_found, conflict, canceled, wrap, message, panic, ◌==◌, ◌&&◌,
  ◌||◌, not, leb_ℤ, if◌then◌else◌, concat, itoa, parse_bool,
}
use ketch.App.{
  Time, ConditionStatus, condition_true, condition_false, condition_unknown, ProcessSpec,
  AppDeploymentSpec, App,
}

-- v1.PodPhase
pub data PodPhase : Type 0 where
  pod_pending pod_running pod_succeeded pod_failed pod_unknown : PodPhase

-- v1.Pod, as far as the code reads it.
pub record Pod : Type 0 where
  pub name : String
  pub phase : PodPhase
  pub conditions : List ConditionStatus

unfoldable pub all_true : List ConditionStatus → Bool
all_true [] = true
all_true (condition_true ∷ cs) = all_true cs
all_true (condition_false ∷ cs) = false
all_true (condition_unknown ∷ cs) = false

-- The loop of `checkPodStatus`.
unfoldable pub check_pods : List Pod → String × Option Error
unfolding all_true
check_pods [] = ("", none)
check_pods (pod ∷ pods) = elim pod.phase [
  | pod_succeeded ↦ ("", none)
  | pod_running ↦
      if all_true pod.conditions
      then check_pods pods
      else (pod.name, some (message "all pods are not in healthy state"))
  | _ ↦ (pod.name, some (message "all pods are not running"))
]

-- `checkPodStatus`, of the pods that the client lists for the app's deployment.
unfoldable pub check_pod_status : String → ℤ → Result (List Pod) → String × Option Error
unfolding check_pods
check_pod_status app_name version pods =
    if app_name == "" || leb_ℤ version (pos 0)
    then ("", some (message "invalid app specifications"))
    else (elim pods [ err e ↦ ("", some e) | ok ps ↦ check_pods ps ])

-- Ten minutes, in nanoseconds.
abbrev pub reconcile_timeout : ℤ
reconcile_timeout = pos 600000000000

-- `timeoutExpired`; a canary that was never started is a nil dereference.
unfoldable pub timeout_expired : Option Time → Time → Result Bool
timeout_expired none now = err panic
timeout_expired (some started) now = ok (ltb_ℤ (started +ℤ reconcile_timeout) now)

-- The scale target of an autoscaler.
pub record ScaleTarget : Type 0 where
  pub name : String
  pub kind : String
  pub api_version : String

unfoldable pub targets_of : List ScaleTarget → Dict ScaleTarget → Dict ScaleTarget
unfolding insert
targets_of [] targets = targets
targets_of (t ∷ ts) targets = targets_of ts (insert t.name t targets)

-- The body of the inner loop of `hpaTargetMap`.
unfoldable pub is_hpa_target : Dict ScaleTarget → String → Bool
unfolding lookup
is_hpa_target targets deployment_name = elim (lookup deployment_name targets) [
  | none ↦ false
  | some t ↦ t.kind == "Deployment" && t.api_version == "apps/v1"
]

unfoldable pub add_processes :
    String → Dict ScaleTarget → ℤ → List ProcessSpec → Dict Bool → Dict Bool
unfolding is_hpa_target insert
add_processes app_name targets version [] hpas = hpas
add_processes app_name targets version (p ∷ ps) hpas = add_processes app_name targets version ps (
    if is_hpa_target targets (concat (app_name ∷ "-" ∷ p.name ∷ "-" ∷ itoa version ∷ []))
    then insert p.name true hpas
    else hpas)

unfoldable pub add_deployments :
    String → Dict ScaleTarget → List AppDeploymentSpec → Dict Bool → Dict Bool
unfolding add_processes
add_deployments app_name targets [] hpas = hpas
add_deployments app_name targets (d ∷ ds) hpas =
    add_deployments app_name targets ds (add_processes app_name targets d.version d.processes hpas)

unfoldable pub hpa_target_map : App → List ScaleTarget → Dict Bool
unfolding targets_of add_deployments
hpa_target_map app hpas = add_deployments app.name (targets_of hpas []) app.spec.deployments []

-- The loops of `isConflictError` and `isCanceledError`.
unfoldable pub is_conflict_error : Error → Bool
is_conflict_error conflict = true
is_conflict_error (wrap text e) = is_conflict_error e
is_conflict_error _ = false

unfoldable pub is_canceled_error : Error → Bool
is_canceled_error canceled = true
is_canceled_error (wrap text e) = is_canceled_error e
is_canceled_error _ = false

-- k8sErrors.IsNotFound
unfoldable pub is_not_found : Error → Bool
is_not_found not_found = true
is_not_found (wrap text e) = is_not_found e
is_not_found _ = false

-- `uninstallHelmChart`, with the annotation that keeps a chart.
unfoldable pub uninstall_helm_chart : String → Dict String → Bool
unfolding lookup parse_bool
uninstall_helm_chart annotation annotations = elim (lookup annotation annotations) [
  | none ↦ true
  | some value ↦ elim (parse_bool value) [ none ↦ true | some keep_chart ↦ not keep_chart ]
]
