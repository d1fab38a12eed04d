-- ===== src/Tests/Deploy.antt =====
-- A deployment from flags, a deployment with steps, and an exported app.
use ketch.Base.{
  ◌||◌, ℕ, String, Bool, true, false, List, [], ◌∷◌, Option, none, some, ℤ, pos, beq_ℤ, add_int,
  Result, ok, err, message, deployment_not_found, ◌≡◌, refl, arith, ◌==◌, if◌then◌else◌,
}
use ketch.App.{Env, ProcessSpec, AppDeploymentSpec, App, ExposedPort}
use ketch.App.Units.{set_units, new_selector}
use ketch.App.Ports.{to_docker_format, new_exposed_port, to_upper}
use ketch.App.Ports.RoundTrip.{new_exposed_port-to_docker_format}
use ketch.App.Canary.{do_rollback}
use ketch.Chart.Procfile.{Procfile}
use ketch.Deploy.{System, FileStat, regular_file, directory, or_zero}
use ketch.Deploy.Flags.{Options, ChangeSet, get_change_set}
use ketch.Deploy.Getters.{
  get_image, get_steps, get_units, get_version, get_process, get_volume_mounts, get_run_as_user,
  get_fs_group, get_wait,
}
use ketch.Deploy.Files.{get_volume_name, get_volumes}
use ketch.Deploy.Validate.{check, validate_deploy}
use ketch.Deploy.Validate.Accepts.{is_ok, accepts, validate_deploy-accepts}
use ketch.Deploy.Update.{Write, update, get_updated_app}
use ketch.Deploy.Update.Steps.{EnvsAfter, specified}
use ketch.Deploy.Update.Stored.{get_updated_app-specified}
use ketch.Deploy.Crd.{UpdateRequest, new_count, update_app_crd, parse_ports}
use ketch.Deploy.Crd.Outcomes.{
  AsksForImage, IsDeployed, update_app_crd-rollback, update_app_crd-IsDeployed,
  update_app_crd-app_yaml,
}
use ketch.Tests.Data.{process, no_canary, app_of, old, canary_app}

abbrev stat : String → FileStat
stat path = if path == "/src" then directory else regular_file

abbrev parse_duration : String → Option ℤ
parse_duration text = if text == "1m" then some (pos 60) else none

abbrev is_label : String → Bool
is_label text = text == "data"

abbrev join : String → String → String
join dir file = file

abbrev no_yaml : Bool → String → Result ketch.App.KetchYamlData
no_yaml strict path = err (message "no such file")

abbrev pub system : System
system = record {
  stat = stat;
  join_path = join;
  parse_duration = parse_duration;
  is_dns1123_label = is_label;
  read_ketch_yaml = no_yaml;
}

abbrev pub options : Options
options = record {
  app_name = "hello";
  image = "ketch/web:v2";
  namespace = "apps";
  ketch_yaml_file_name = "";
  strict_ketch_yaml_decoding = false;
  steps = pos 4;
  step_time_interval = "1m";
  wait = false;
  timeout = "1m";
  app_source_path = "";
  sub_paths = [];
  description = "the greeter";
  envs = "A=1" ∷ [];
  docker_registry_secret = "";
  builder = "";
  build_packs = [];
  volume = "";
  volume_mount_path = "";
  volume_mount_options = [];
  fs_group = pos 0;
  run_as_user = pos 0;
  units = pos 3;
  version = pos 0;
  process = "";
}

-- The flags that the user gave: a canary of four steps, three units, a description and a variable.
abbrev changed : String → Bool
changed flag =
    flag == "image"
    || flag == "steps"
    || flag == "step-interval"
    || flag == "units"
    || flag == "description"
    || flag == "env"

abbrev pub flags : ChangeSet
flags = get_change_set options changed

-- One deployment with all the traffic.
abbrev pub primary_app : App
primary_app = app_of no_canary (old ∷ [])

get_change_set_tests :
    (flags.steps ≡ some (pos 4)) × (flags.namespace ≡ none) × (get_steps flags ≡ ok (pos 4))
unfolding get_change_set get_steps
get_change_set_tests = (refl, refl, refl)

validate_deploy-accepts_example :
    is_ok (validate_deploy system flags primary_app) ≡ accepts system flags (old ∷ [])
validate_deploy-accepts_example = validate_deploy-accepts system flags primary_app

flags_accepted : accepts system flags (old ∷ []) ≡ true
unfolding get_change_set
flags_accepted = refl

abbrev envs : List Env
envs = record { name = "A"; value = "1" } ∷ []

abbrev written : Write
written = update (record primary_app { spec = specified flags envs primary_app.spec })

flags-written : get_updated_app system flags (ok primary_app) ≡ ok written
unfolding get_updated_app get_change_set get_image get_steps get_units get_version get_process
    get_volume_mounts get_run_as_user get_fs_group get_wait get_volume_name get_volumes check
flags-written = refl

get_updated_app-specified_example :
    (es : List Env) × EnvsAfter flags primary_app.spec.env es
    × (written ≡ update (record primary_app { spec = specified flags es primary_app.spec }))
    × (accepts system flags primary_app.spec.deployments ≡ true)
unfolding get_change_set
get_updated_app-specified_example =
    get_updated_app-specified system flags refl primary_app written flags-written

abbrev procfile : Procfile
procfile = record {
  processes = ("worker", "run" ∷ []) ∷ ("web", "serve" ∷ []) ∷ [];
  routable_process_name = "web";
}

abbrev request : ℤ → ℕ → Option (List ProcessSpec) → UpdateRequest
request steps step_weight processes = record {
  app_version = none;
  image = "ketch/web:v2";
  steps = steps;
  step_weight = step_weight;
  proc_file = procfile;
  ketch_yaml = none;
  config_ports = "8080/tcp" ∷ [];
  next_scheduled_time = pos 100;
  started = pos 40;
  step_time_interval = pos 60;
  units = pos 3;
  version = pos 0;
  process = "";
  processes = processes;
  volume = "";
  volumes = [];
  volume_mounts = [];
}

abbrev four_steps : UpdateRequest
four_steps = request (pos 4) 25 none

abbrev started_app : App
started_app = or_zero primary_app (update_app_crd four_steps primary_app)

started_app_lem : update_app_crd four_steps primary_app ≡ ok started_app
unfolding update_app_crd set_units new_selector
started_app_lem = refl

abbrev rolled_back : App
rolled_back = or_zero canary_app (do_rollback canary_app)

rolled_back_lem : do_rollback canary_app ≡ ok rolled_back
unfolding do_rollback
rolled_back_lem = refl

update_app_crd-rollback_example :
    update_app_crd four_steps rolled_back
    ≡ err (message "cannot have more than one deployment per app, unless canary")
update_app_crd-rollback_example =
    update_app_crd-rollback four_steps canary_app rolled_back rolled_back_lem

abbrev plain : UpdateRequest
plain = request (pos 0) 0 none

plain_asks : AsksForImage plain primary_app
plain_asks = record {
  one_step = refl;
  every_version = refl;
  every_process = refl;
  some_units = refl;
  inactive = refl;
  not_two = refl;
}

abbrev ports : List ExposedPort
ports = record { port = pos 8080; protocol = "TCP" } ∷ []

ports_lem : parse_ports ("8080/tcp" ∷ []) ≡ ok ports
unfolding parse_ports
ports_lem = refl

update_app_crd-IsDeployed_example :
    (app' : App) × (update_app_crd plain primary_app ≡ ok app')
    × IsDeployed plain ports primary_app app'
update_app_crd-IsDeployed_example =
    update_app_crd-IsDeployed plain primary_app plain_asks ports ports_lem refl

abbrev from_yaml : UpdateRequest
from_yaml = request (pos 0) 0 (some (process "web" (some (pos 1)) ∷ []))

from_yaml_asks : AsksForImage from_yaml primary_app
from_yaml_asks = record {
  one_step = refl;
  every_version = refl;
  every_process = refl;
  some_units = refl;
  inactive = refl;
  not_two = refl;
}

third_version : beq_ℤ (pos 1) (new_count from_yaml primary_app.spec) ≡ false
unfolding new_count add_int
third_version = refl

update_app_crd-app_yaml_example : update_app_crd from_yaml primary_app ≡ err deployment_not_found
update_app_crd-app_yaml_example =
    update_app_crd-app_yaml from_yaml primary_app from_yaml_asks ports
      (process "web" (some (pos 1))) [] (pos 1) ports_lem refl refl third_version

new_exposed_port-to_docker_format_example :
    new_exposed_port (to_docker_format (record { port = pos 53; protocol = "UDP" }))
    ≡ ok (record { port = pos 53; protocol = "UDP" })
unfolding to_upper
new_exposed_port-to_docker_format_example =
    new_exposed_port-to_docker_format (record { port = pos 53; protocol = "UDP" }) (omega arith)
      refl refl
