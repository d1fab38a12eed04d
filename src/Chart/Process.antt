-- ===== src/Chart/Process.antt =====
-- internal/chart/process.go: what the chart says of one process.
pub mod Labels
pub mod Metadata
use ketch.Base.{
  ℕ, zero, suc, String, Bool, true, false, List, [], ◌∷◌, ◌++◌, map, Option, none, some, ℤ, pos,
  ltb_ℤ, beq_ℤ, leb, beq, Dict, insert, Result, ok, err, message, ◌>>=◌, ◌==◌, ◌&&◌, ◌||◌, not,
  all_chars, if◌then◌else◌, concat, itoa,
}
use ketch.App.{
  Opaque, Env, Volume, VolumeMount, Target, MetadataItem, is_deployment, is_service, is_pod,
}
use ketch.Chart.Configurator.{
  Configurator, Probes, ServicePort, join, probes, container_ports_for_process,
  service_ports_for_process,
}

-- `extraMetadata`
pub record ExtraMetadata : Type 0 where
  pub labels : Dict String
  pub annotations : Dict String

pub record Process : Type 0 where
  pub name : String
  pub cmd : List String
  pub units : ℤ
  pub routable : Bool
  pub container_ports : List ℤ
  pub service_ports : List ServicePort
  pub public_service_port : ℤ
  pub env : List Env
  pub security_context : Option Opaque
  pub resource_requirements : Option Opaque
  pub volumes : List Volume
  pub volume_mounts : List VolumeMount
  pub readiness_probe : Option Opaque
  pub liveness_probe : Option Opaque
  pub startup_probe : Option Opaque
  pub lifecycle : Option (List String)
  pub service_metadata : ExtraMetadata
  pub deployment_metadata : ExtraMetadata
  pub pod_metadata : ExtraMetadata

abbrev pub ProcessOption : Type 0
ProcessOption = Process → Result Process

-- The units that are asked for, or else those that a process has.
abbrev pub units_or : Option ℤ → ℤ → ℤ
units_or none n = n
units_or (some units) n = units

abbrev pub with_units : Option ℤ → ProcessOption
with_units units p = ok (record p { units = units_or units p.units })

abbrev pub with_envs : List Env → ProcessOption
with_envs envs p = ok (record p { env = envs })

abbrev pub with_cmd : List String → ProcessOption
with_cmd cmd p = ok (record p { cmd = cmd })

-- `portConfigurator`
pub record PortConfigurator : Type 0 where
  pub container_ports : String → List ℤ
  pub service_ports : String → List ServicePort
  pub probes : Result Probes

-- A `Configurator` as one.
unfoldable pub port_configurator : Configurator → PortConfigurator
unfolding probes
port_configurator c = record {
  container_ports = container_ports_for_process c;
  service_ports = service_ports_for_process c;
  probes = ok (probes c);
}

-- The end of `withPortsAndProbes`, with at least one port of each kind.
abbrev pub with_probes : ServicePort → Probes → Process → Process
with_probes port probes p = record p {
  public_service_port = port.port;
  liveness_probe = probes.liveness;
  readiness_probe = probes.readiness;
  startup_probe = probes.startup_probe;
}

abbrev pub with_ports : List ℤ → List ServicePort → Result Probes → ProcessOption
with_ports [] service_ports probes p =
    ok (record p { container_ports = []; service_ports = service_ports })
with_ports (c ∷ cs) [] probes p = ok (record p { container_ports = c ∷ cs; service_ports = [] })
with_ports (c ∷ cs) (s ∷ ss) probes p = probes >>= λ found.
    ok (with_probes s found (record p { container_ports = c ∷ cs; service_ports = s ∷ ss }))

abbrev pub with_ports_and_probes : PortConfigurator → ProcessOption
with_ports_and_probes c p =
    with_ports (c.container_ports p.name) (c.service_ports p.name) c.probes p

abbrev pub with_security_context : Option Opaque → ProcessOption
with_security_context security_context p = ok (record p { security_context = security_context })

abbrev pub with_lifecycle : Option (List String) → ProcessOption
with_lifecycle lifecycle p = ok (record p { lifecycle = lifecycle })

abbrev pub with_resource_requirements : Option Opaque → ProcessOption
with_resource_requirements rr p = ok (record p { resource_requirements = rr })

abbrev pub with_volumes : List Volume → ProcessOption
with_volumes volumes p = ok (record p { volumes = volumes })

abbrev pub with_volume_mounts : List VolumeMount → ProcessOption
with_volume_mounts mounts p = ok (record p { volume_mounts = mounts })

-- `portEnvVariables`
unfoldable pub port_env_variables : String → List ℤ → List Env
unfolding itoa
port_env_variables name [] = []
port_env_variables name (port ∷ []) =
    record { name = "port"; value = itoa port }
    ∷ record { name = "PORT"; value = itoa port }
    ∷ record { name = concat ("PORT_" ∷ name ∷ []); value = itoa port }
    ∷ []
port_env_variables name (port ∷ next ∷ ports) =
    record {
      name = concat ("PORT_" ∷ name ∷ []);
      value = join "," (map itoa (port ∷ next ∷ ports));
    }
    ∷ []

abbrev pub no_metadata : ExtraMetadata
no_metadata = record { labels = []; annotations = [] }

abbrev pub initial : String → Bool → Process
initial name is_routable = record {
  name = name;
  cmd = [];
  units = pos 1;
  routable = is_routable;
  container_ports = [];
  service_ports = [];
  public_service_port = pos 0;
  env = [];
  security_context = none;
  resource_requirements = none;
  volumes = [];
  volume_mounts = [];
  readiness_probe = none;
  liveness_probe = none;
  startup_probe = none;
  lifecycle = none;
  service_metadata = no_metadata;
  deployment_metadata = no_metadata;
  pod_metadata = no_metadata;
}

abbrev pub run_options : List ProcessOption → ProcessOption
run_options [] p = ok p
run_options (option ∷ options) p = option p >>= run_options options

abbrev pub is_empty {ℓ} : {A : Type ℓ} → List A → Bool
is_empty [] = true
is_empty (x ∷ xs) = false

-- `hasOpenPort`
abbrev pub has_open_port : Process → Bool
has_open_port p = not (is_empty p.container_ports) && not (is_empty p.service_ports)

-- `newProcess`
unfoldable pub new_process : String → Bool → List ProcessOption → Result Process
unfolding port_env_variables
new_process name is_routable options = run_options options (initial name is_routable) >>= λ p.
    let q = record p { env = p.env ++ port_env_variables p.name p.container_ports } in
    if not p.routable
    then ok q
    else if has_open_port p
    then ok q
    else err
        (message "routable process should have at least one container port and one service port")
