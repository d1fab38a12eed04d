-- ===== src/Tests/Data.antt =====
-- The app that the tests work on: two deployments, in the middle of a canary.
use ketch.Base.{ℕ, String, true, false, List, [], ◌∷◌, Option, none, some, ℤ, pos}
use ketch.App.{ProcessSpec, AppDeploymentSpec, CanarySpec, App}

abbrev pub process : String → Option ℤ → ProcessSpec
process name units = record {
  name = name;
  units = units;
  env = [];
  cmd = name ∷ [];
  resources = none;
  volumes = [];
  volume_mounts = [];
  security_context = none;
}

abbrev pub deployment : ℤ → ℕ → List ProcessSpec → AppDeploymentSpec
deployment version weight processes = record {
  image_pull_secrets = [];
  image = "ketch/web:v1";
  version = version;
  processes = processes;
  ketch_yaml = none;
  labels = [];
  routing_settings = record { weight = weight };
  exposed_ports = [];
}

abbrev pub no_canary : CanarySpec
no_canary = record {
  steps = pos 0;
  step_weight = 0;
  step_time_interval = pos 0;
  next_scheduled_time = none;
  current_step = pos 0;
  active = false;
  started = none;
  target = none;
}

abbrev pub app_of : CanarySpec → List AppDeploymentSpec → App
app_of canary deployments = record {
  name = "hello";
  annotations = [];
  finalizers = [];
  deletion_timestamp = none;
  spec = record {
    version = none;
    id = "";
    description = "";
    canary = canary;
    deployments = deployments;
    deployments_count = pos 2;
    env = [];
    ingress = record {
      generate_default_cname = true;
      cnames = [];
      controller = record {
        class_name = "nginx";
        service_endpoint = "10.10.10.10";
        ingress_type = "nginx";
        cluster_issuer = "";
      };
    };
    docker_registry = record { secret_name = "" };
    builder = "";
    build_packs = [];
    labels = [];
    annotations = [];
    namespace = "default";
    service_account_name = "";
    security_context = none;
    extensions = [];
    volume_claim_templates = [];
    type = none;
  };
  status = record { conditions = []; extensions_statuses = [] };
}

abbrev pub old : AppDeploymentSpec
old = deployment (pos 1) 100 (process "web" (some (pos 3)) ∷ process "worker" none ∷ [])

abbrev pub new : AppDeploymentSpec
new = deployment (pos 2) 0 (process "web" (some (pos 1)) ∷ [])

-- Two steps of 50, one every 60 from 100 on.
abbrev pub two_steps : CanarySpec
two_steps = record {
  steps = pos 2;
  step_weight = 50;
  step_time_interval = pos 60;
  next_scheduled_time = some (pos 100);
  current_step = pos 1;
  active = true;
  started = some (pos 40);
  target = some (("web", 4) ∷ []);
}

abbrev pub canary_app : App
canary_app = app_of two_steps (old ∷ new ∷ [])
