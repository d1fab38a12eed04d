-- ===== src/Deploy/Crd.antt =====
-- `updateAppCRD` of internal/deploy/deploy.go: the function that it retries on a conflict, from the app that
-- the client gets to the app that it sends back.
pub mod Keeps
pub mod Start
pub mod Outcomes
use ketch.Base.{
  ℕ, String, Bool, true, false, List, [], ◌∷◌, ◌++◌, Option, none, some, ℤ, pos, add_int, ltb_ℤ,
  Dict, lookup, Result, ok, err, message, panic, ◌>>=◌, ◌==◌, ◌&&◌, ◌||◌, not, if◌then◌else◌,
}
use ketch.App.{
  Time, Volume, VolumeMount, ProcessSpec, KetchYamlData, ExposedPort, AppDeploymentSpec, CanarySpec,
  AppType, stateful_set_app_type, AppSpec, App, with_deployments,
}
use ketch.App.Units.{is_some, new_selector, set_units}
use ketch.App.Ports.{new_exposed_port}
use ketch.Chart.Procfile.{Procfile, sorted_names}

-- `updateAppCRDRequest`; of the image's configuration file the ports are used.
pub record UpdateRequest : Type 0 where
  pub app_version : Option String
  pub image : String
  pub steps : ℤ
  pub step_weight : ℕ
  pub proc_file : Procfile
  pub ketch_yaml : Option KetchYamlData
  pub config_ports : List String
  pub next_scheduled_time : Time
  pub started : Time
  pub step_time_interval : ℤ
  pub units : ℤ
  pub version : ℤ
  pub process : String
  pub processes : Option (List ProcessSpec)
  pub volume : String
  pub volumes : List Volume
  pub volume_mounts : List VolumeMount

abbrev pub is_empty : List AppDeploymentSpec → Bool
is_empty [] = true
is_empty (d ∷ ds) = false

abbrev pub has_two : List AppDeploymentSpec → Bool
has_two [] = false
has_two (d ∷ []) = false
has_two (d ∷ e ∷ ds) = true

-- `SetUnits` with the error returned: the changed app is dropped then.
abbrev pub with_set_units : ℤ → String → ℤ → App → Result App
with_set_units version process units app =
    let (app', r) = set_units (new_selector version process) units app in r >>= λ done. ok app'

-- The block on the units of the request.
unfoldable pub apply_units : UpdateRequest → App → Result App
apply_units args app =
    if ltb_ℤ (pos 0) args.units
    then with_set_units args.version args.process args.units app
    else ok app

-- The loop over the processes of an app.yaml; a process without units is a nil dereference.
unfoldable pub apply_processes : List ProcessSpec → App → Result App
apply_processes [] app = ok app
apply_processes (p ∷ ps) app = elim p.units [
  | none ↦ err panic
  | some units ↦ with_set_units (pos 1) p.name units app >>= λ app'. apply_processes ps app'
]

-- The units of the last previous process of that name.
unfoldable pub previous_units : String → Option ℤ → List ProcessSpec → Option ℤ
previous_units name units [] = units
previous_units name units (p ∷ ps) =
    previous_units name (if p.name == name then p.units else units) ps

-- The body of the loop over the process names.
unfoldable pub new_process_spec : UpdateRequest → Option (List ProcessSpec) → String → ProcessSpec
unfolding lookup previous_units
new_process_spec args previous name =
    let selected = args.process == "" || args.process == name in
    record {
      name = name;
      units = elim previous [ none ↦ none | some ps ↦ previous_units name none ps ];
      env = [];
      cmd = elim (lookup name args.proc_file.processes) [ none ↦ [] | some cmd ↦ cmd ];
      resources = none;
      volumes = if selected then args.volumes else [];
      volume_mounts = if selected then args.volume_mounts else [];
      security_context = none;
    }

unfoldable pub new_process_specs :
    UpdateRequest → Option (List ProcessSpec) → List String → List ProcessSpec
unfolding new_process_spec
new_process_specs args previous [] = []
new_process_specs args previous (name ∷ names) =
    new_process_spec args previous name ∷ new_process_specs args previous names

unfoldable pub parse_ports : List String → Result (List ExposedPort)
unfolding new_exposed_port
parse_ports [] = ok []
parse_ports (port ∷ ports) = new_exposed_port port >>= λ p. parse_ports ports >>= λ ps. ok (p ∷ ps)

-- The processes that are reused: those of a single deployment with the same image.
unfoldable pub previous_processes :
    UpdateRequest → List AppDeploymentSpec → Option (List ProcessSpec)
previous_processes args [] = none
previous_processes args (d ∷ []) = if d.image == args.image then some d.processes else none
previous_processes args (d ∷ e ∷ ds) = none

-- A canary deployment has more than one step.
abbrev pub is_canary : UpdateRequest → Bool
is_canary args = ltb_ℤ (pos 1) args.steps

-- The number of the new deployment: the next one, unless the image is deployed again.
unfoldable pub new_count : UpdateRequest → AppSpec → ℤ
unfolding previous_processes
new_count args spec =
    if not (is_some (previous_processes args spec.deployments)) || is_canary args
    then add_int spec.deployments_count (pos 1)
    else spec.deployments_count

unfoldable pub new_deployment : UpdateRequest → List ExposedPort → AppSpec → AppDeploymentSpec
unfolding previous_processes new_process_specs sorted_names new_count
new_deployment args ports spec = record {
  image_pull_secrets = [];
  image = args.image;
  version = new_count args spec;
  processes =
      new_process_specs args (previous_processes args spec.deployments)
        (sorted_names args.proc_file);
  ketch_yaml = args.ketch_yaml;
  labels = [];
  routing_settings = record { weight = if is_canary args then 0 else 100 };
  exposed_ports = ports;
}

unfoldable pub new_canary : UpdateRequest → CanarySpec
new_canary args = record {
  steps = args.steps;
  step_weight = args.step_weight;
  step_time_interval = args.step_time_interval;
  next_scheduled_time = some args.next_scheduled_time;
  current_step = pos 1;
  active = true;
  started = some args.started;
  target = none;
}

-- The app with the new deployment beside the primary one, or alone.
unfoldable pub add_deployment : UpdateRequest → List ExposedPort → App → App
unfolding new_count new_deployment new_canary
add_deployment args ports app =
    let spec = app.spec in
    let deployment = new_deployment args ports spec in
    record app {
      spec = record spec {
        deployments_count = new_count args spec;
        canary = if is_canary args then new_canary args else spec.canary;
        deployments =
            if is_canary args then spec.deployments ++ deployment ∷ [] else deployment ∷ [];
      };
    }

-- The app after its version and its type are stored: a first deployment with a volume is a
-- stateful set.
unfoldable pub with_version_and_type : UpdateRequest → App → App
with_version_and_type args app = record app {
  spec = record app.spec {
    version = args.app_version;
    type =
        if is_empty app.spec.deployments && not (args.volume == "")
        then some stateful_set_app_type
        else app.spec.type;
  };
}

-- The deployment of an app that has no canary at work.
unfoldable pub update_primary : UpdateRequest → App → Result App
unfolding parse_ports add_deployment apply_units apply_processes
update_primary args app = parse_ports args.config_ports >>= λ ports.
    apply_units args (add_deployment args ports app) >>= λ app'. elim args.processes [
      | none ↦ ok app'
      | some ps ↦ apply_processes ps app'
    ]

-- `updateAppCRD`: with a canary at work only the units change.
unfoldable pub update_app_crd : UpdateRequest → App → Result App
unfolding with_version_and_type apply_units update_primary
update_app_crd args app =
    let app' = with_version_and_type args app in
    if has_two app.spec.deployments && not app.spec.canary.active
    then err (message "cannot have more than one deployment per app, unless canary")
    else if app.spec.canary.active
    then apply_units args app'
    else update_primary args app'
