-- ===== src/Chart/Configurator.antt =====
-- internal/chart/configurator.go: the ports, the probes and the lifecycle hook of a process.
pub mod Ports
use ketch.Base.{
  ℕ, suc, ◌+◌, ◌%◌, ◌^◌, ◌-◌, String, Bool, true, false, List, [], ◌∷◌, Option, none, some, ℤ, pos,
  negsuc, ltb, ltb_ℤ, Dict, lookup, ◌==◌, not, if◌then◌else◌, concat, itoa,
}
use ketch.App.{Opaque, ExposedPort, KetchYamlData, KetchYamlHealthcheck, KetchYamlProcessPortConfig}
use ketch.App.Ports.{to_upper}
use ketch.Chart.Procfile.{Procfile}

-- A ketch.yaml is the empty one when there is none.
pub record Configurator : Type 0 where
  pub yaml : KetchYamlData
  pub procfile : Procfile
  pub exposed_ports : List ExposedPort
  pub default_port : ℤ

unfoldable pub new_configurator :
    Option KetchYamlData → Procfile → List ExposedPort → ℤ → Configurator
new_configurator yaml procfile exposed_ports default_port = record {
  yaml = elim yaml [
    | none ↦ record { hooks = none; healthcheck = none; kubernetes = none }
    | some y ↦ y
  ];
  procfile = procfile;
  exposed_ports = exposed_ports;
  default_port = default_port;
}

pub record Probes : Type 0 where
  pub liveness : Option Opaque
  pub readiness : Option Opaque
  pub startup_probe : Option Opaque

unfoldable pub probes : Configurator → Probes
probes c = elim c.yaml.healthcheck [
  | none ↦ record { liveness = none; readiness = none; startup_probe = none }
  | some hc ↦ record {
    liveness = hc.liveness_probe;
    readiness = hc.readiness_probe;
    startup_probe = hc.startup_probe;
  }
]

-- strings.Join
abbrev pub join : String → List String → String
join sep [] = ""
join sep (s ∷ []) = s
join sep (s ∷ t ∷ ss) = concat (s ∷ sep ∷ join sep (t ∷ ss) ∷ [])

-- The command of the hook after a start, if there is one.
unfoldable pub lifecycle : Configurator → Option (List String)
lifecycle c = elim c.yaml.hooks [
  | none ↦ none
  | some hooks ↦ elim hooks.restart.after [
    | [] ↦ none
    | cmd ∷ cmds ↦ some ("sh" ∷ "-c" ∷ join " && " (cmd ∷ cmds) ∷ [])
  ]
]

abbrev pub default_http_port_name : ℕ → String
default_http_port_name i = concat ("http-default-" ∷ itoa (pos (suc i)) ∷ [])

-- The configurations of the exposed ports, from index `i` on.
unfoldable pub exposed_configs : ℕ → List ExposedPort → List KetchYamlProcessPortConfig
unfolding to_upper itoa
exposed_configs i [] = []
exposed_configs i (port ∷ ports) =
    record {
      name = default_http_port_name i;
      protocol = to_upper port.protocol;
      port = port.port;
      target_port = port.port;
    }
    ∷ exposed_configs (suc i) ports

unfoldable pub process_port_configs : Configurator → String → List KetchYamlProcessPortConfig
unfolding lookup exposed_configs
process_port_configs c process =
    let exposed = exposed_configs 0 c.exposed_ports in
    elim c.yaml.kubernetes [
      | none ↦ exposed
      | some k ↦ elim (lookup process k.processes) [ none ↦ exposed | some config ↦ config.ports ]
    ]

-- `int32(n)`
unfoldable pub to_int32 : ℤ → ℤ
to_int32 (pos n) = let m = n % 2 ^ 32 in if ltb m (2 ^ 31) then pos m else negsuc (2 ^ 32 - 1 - m)
to_int32 (negsuc n) =
    let m = n % 2 ^ 32 in if ltb m (2 ^ 31) then negsuc m else pos (2 ^ 32 - 1 - m)

-- The first positive one of two ports, else the default.
abbrev pub first_port : ℤ → ℤ → ℤ → ℤ
first_port a b default_port =
    if ltb_ℤ (pos 0) a then a else if ltb_ℤ (pos 0) b then b else default_port

unfoldable pub container_ports : ℤ → List KetchYamlProcessPortConfig → List ℤ
unfolding to_int32
container_ports default_port [] = []
container_ports default_port (port ∷ ports) =
    to_int32 (first_port port.target_port port.port default_port)
    ∷ container_ports default_port ports

-- `ContainerPortsForProcess`
unfoldable pub container_ports_for_process : Configurator → String → List ℤ
unfolding process_port_configs container_ports
container_ports_for_process c process =
    container_ports c.default_port (process_port_configs c process)

-- v1.ServicePort; the target port is the number that intstr.FromInt gets.
pub record ServicePort : Type 0 where
  pub name : String
  pub port : ℤ
  pub protocol : String
  pub target_port : ℤ

unfoldable pub service_ports : ℤ → ℕ → List KetchYamlProcessPortConfig → List ServicePort
unfolding to_int32 itoa
service_ports default_port i [] = []
service_ports default_port i (config ∷ configs) =
    record {
      name = if config.name == "" then default_http_port_name i else config.name;
      port = to_int32 (first_port config.port config.target_port default_port);
      protocol = config.protocol;
      target_port = first_port config.target_port config.port default_port;
    }
    ∷ service_ports default_port (suc i) configs

-- `ServicePortsForProcess`
unfoldable pub service_ports_for_process : Configurator → String → List ServicePort
unfolding process_port_configs service_ports
service_ports_for_process c process =
    service_ports c.default_port 0 (process_port_configs c process)
