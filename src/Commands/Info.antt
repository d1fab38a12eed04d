-- ===== src/Commands/Info.antt =====
-- app.go, app_info.go and app_list.go of cmd/ketch: the state of an app's pods, and what `ketch app info` and
-- `ketch app list` show.
use Prim.Native.Nat.{ℕ, zero, suc}
use ketch.Base.{
  String, Bool, true, false, List, [], ◌∷◌, ◌++◌, Option, none, some, pos, Dict, lookup, Result, ok,
  err, wrap, ◌==◌, ◌&&◌, if◌then◌else◌, concat, itoa,
}
use ketch.App.{App, AppDeploymentSpec, ProcessSpec}
use ketch.App.Status.{cnames_of}
use ketch.Chart.Configurator.{join}
use ketch.Commands.Job.{matches}

-- `PodState` of internal/api/v1beta1
pub data PodState : Type 0 where
  pod_running pod_deploying pod_error pod_succeeded : PodState

abbrev pub show_state : PodState → String
show_state pod_running = "running"
show_state pod_deploying = "deploying"
show_state pod_error = "error"
show_state pod_succeeded = "succeeded"

-- v1.ContainerStatus: the reasons for which a container is waiting or was terminated
pub record ContainerStatus : Type 0 where
  pub waiting : Option String
  pub terminated : Option String

-- v1.Pod, as far as the commands read it; its phase is a text.
pub record AppPod : Type 0 where
  pub labels : Dict String
  pub phase : String
  pub container_statuses : List ContainerStatus

abbrev pub has_reason : String → Option String → Bool
has_reason reason none = false
has_reason reason (some r) = r == reason

-- The loop of `podState`.
unfoldable pub containers_state : List ContainerStatus → PodState
containers_state [] = pod_running
containers_state (c ∷ cs) =
    if has_reason "CrashLoopBackOff" c.waiting
    then pod_error
    else (if has_reason "Completed" c.terminated then pod_succeeded else containers_state cs)

-- `podState`
unfoldable pub pod_state : AppPod → PodState
unfolding containers_state
pod_state pod =
    if pod.phase == "Pending"
    then pod_deploying
    else (if pod.phase == "Running"
        then containers_state pod.container_statuses
        else (if pod.phase == "Succeeded" then pod_succeeded else pod_error))

-- How many pods are deploying, running, in an error, and have succeeded.
pub record Counts : Type 0 where
  pub deploying : ℕ
  pub running : ℕ
  pub errored : ℕ
  pub succeeded : ℕ

abbrev pub count_state : PodState → Counts → Counts
count_state pod_running n = record n { running = suc n.running }
count_state pod_deploying n = record n { deploying = suc n.deploying }
count_state pod_error n = record n { errored = suc n.errored }
count_state pod_succeeded n = record n { succeeded = suc n.succeeded }

unfoldable pub count_pods : List AppPod → Counts
unfolding pod_state
count_pods [] = record { deploying = 0; running = 0; errored = 0; succeeded = 0 }
count_pods (pod ∷ pods) = count_state (pod_state pod) (count_pods pods)

-- The part of a state for its number of pods.
abbrev pub part : PodState → ℕ → List String
part state n = elim n [
  | zero ↦ []
  | suc m ↦ concat (itoa (pos (suc m)) ∷ " " ∷ show_state state ∷ []) ∷ []
]

-- `appState`
unfoldable pub app_state : List AppPod → String
unfolding count_pods itoa
app_state [] = "created"
app_state (pod ∷ pods) =
    let n = count_pods (pod ∷ pods) in
    join ", " (
      part pod_deploying n.deploying
      ++ (part pod_running n.running
          ++ (part pod_error n.errored ++ part pod_succeeded n.succeeded)))

-- A label of a pod, which is empty if it is missing.
abbrev pub label_of : String → AppPod → String
label_of key pod = elim (lookup key pod.labels) [ none ↦ "" | some value ↦ value ]

unfoldable pub filter_pods : (AppPod → Bool) → List AppPod → List AppPod
filter_pods test [] = []
filter_pods test (pod ∷ pods) =
    let rest = filter_pods test pods in if test pod then pod ∷ rest else rest

-- `filterAppPods`
abbrev pub filter_app_pods : String → List AppPod → List AppPod
filter_app_pods name = filter_pods (λ pod. label_of "theketch.io/app-name" pod == name)

-- `filterProcessDeploymentPods`
abbrev pub filter_process_deployment_pods : String → String → List AppPod → List AppPod
filter_process_deployment_pods version process = filter_pods (λ pod.
    label_of "theketch.io/app-deployment-version" pod == version
    && label_of "theketch.io/app-process" pod == process)

-- `deploymentOutput`
pub record DeploymentOutput : Type 0 where
  pub deployment_version : String
  pub image : String
  pub process_name : String
  pub weight : String
  pub state : String
  pub cmd : String

-- The inner loop of `generateAppInfoOutput`.
unfoldable pub process_outputs :
    List AppPod → AppDeploymentSpec → List ProcessSpec → List DeploymentOutput
unfolding app_state filter_pods itoa
process_outputs pods deployment [] = []
process_outputs pods deployment (process ∷ processes) =
    let version = itoa deployment.version in
    record {
      deployment_version = version;
      image = deployment.image;
      process_name = process.name;
      weight = concat (itoa (pos deployment.routing_settings.weight) ∷ "%" ∷ []);
      state = app_state (filter_process_deployment_pods version process.name pods);
      cmd = join " " process.cmd;
    }
    ∷ process_outputs pods deployment processes

unfoldable pub deployment_outputs : List AppPod → List AppDeploymentSpec → List DeploymentOutput
unfolding process_outputs
deployment_outputs pods [] = []
deployment_outputs pods (d ∷ ds) = process_outputs pods d d.processes ++ deployment_outputs pods ds

-- `appInfoOutput`, with the cnames and the flag of its context
pub record AppInfoOutput : Type 0 where
  pub app : App
  pub cnames : List String
  pub no_processes : Bool
  pub deployments : List DeploymentOutput

abbrev pub is_nil : List DeploymentOutput → Bool
is_nil [] = true
is_nil (o ∷ os) = false

-- `generateAppInfoOutput`; there is no process where there is no output of one.
unfoldable pub generate_app_info_output : App → List AppPod → AppInfoOutput
unfolding deployment_outputs cnames_of
generate_app_info_output app pods =
    let outputs = deployment_outputs pods app.spec.deployments in
    record {
      app = app;
      cnames = cnames_of app;
      no_processes = is_nil outputs;
      deployments = outputs;
    }

-- `appListOutput`
pub record AppListOutput : Type 0 where
  pub name : String
  pub namespace : String
  pub state : String
  pub addresses : String
  pub builder : String
  pub description : String

-- `generateAppListOutput`
unfoldable pub generate_app_list_output : List App → List AppPod → List AppListOutput
unfolding app_state filter_pods cnames_of
generate_app_list_output [] pods = []
generate_app_list_output (app ∷ apps) pods =
    record {
      name = app.name;
      namespace = app.spec.namespace;
      state = app_state (filter_app_pods app.name pods);
      addresses = join " " (cnames_of app);
      builder = app.spec.builder;
      description = app.spec.description;
    }
    ∷ generate_app_list_output apps pods

-- `appListNames`, of the apps that the client lists
unfoldable pub app_names : List String → List App → List String
unfolding matches
app_names filters [] = []
app_names [] (app ∷ apps) = app.name ∷ app_names [] apps
app_names (f ∷ fs) (app ∷ apps) = matches app.name (f ∷ fs) ++ app_names (f ∷ fs) apps

unfoldable pub app_list_names : Result (List App) → List String → Result (List String)
unfolding app_names
app_list_names apps filters = elim apps [
  | err e ↦ err (wrap "failed to list apps" e)
  | ok items ↦ ok (app_names filters items)
]
