-- ===== src/Chart/Application.antt =====
-- internal/chart/application_chart.go: the chart of an app. A gateway service keeps the values that its
-- deployment and its process have when it is set.
pub mod Processes
pub mod Service
pub mod Made
use ketch.Base.{
  ℕ, String, Bool, true, false, List, [], ◌∷◌, ◌++◌, map, Option, none, some, ℤ, pos, beq_ℤ, ltb,
  beq, ◌+◌, Dict, lookup, Result, ok, err, ◌>>=◌, ◌==◌, ◌&&◌, not, any, length, if◌then◌else◌,
  concat, itoa,
}
use ketch.App.{
  AppType, get_type, Env, Label, MetadataItem, RoutingSettings, PodSecurityContext,
  PersistentVolumeClaim, DockerRegistrySpec, IngressControllerSpec, ExposedPort, ProcessSpec,
  AppDeploymentSpec, AppSpec, App,
}
use ketch.Chart.Procfile.{Procfile, procfile_from_processes, is_routable}
use ketch.Chart.Configurator.{Configurator, new_configurator, lifecycle}
use ketch.Chart.Ingress.{Ingress, new_ingress}
use ketch.Chart.Process.{
  Process, ProcessOption, new_process, port_configurator, with_cmd, with_units, with_envs,
  with_ports_and_probes, with_lifecycle, with_security_context, with_resource_requirements,
  with_volumes, with_volume_mounts, is_empty,
}
use ketch.Chart.Process.Labels.{with_labels, with_annotations}

pub record Deployment : Type 0 where
  pub image_pull_secrets : List String
  pub image : String
  pub version : ℤ
  pub processes : List Process
  pub labels : List Label
  pub routing_settings : RoutingSettings

-- `gatewayService`
pub record GatewayService : Type 0 where
  pub deployment : Deployment
  pub process : Process

-- `app`, but for the group, which is set when the program starts.
pub record AppValues : Type 0 where
  pub id : String
  pub name : String
  pub deployments : List Deployment
  pub env : List Env
  pub ingress : Ingress
  pub is_accessible : Bool
  pub service : Option GatewayService
  pub metadata_labels : List MetadataItem
  pub metadata_annotations : List MetadataItem
  pub service_account_name : String
  pub security_context : Option PodSecurityContext
  pub volume_claim_templates : List PersistentVolumeClaim
  pub type : AppType

-- `values` and the templates.
pub record ApplicationChart : Type 0 where
  pub app : AppValues
  pub ingress_controller : IngressControllerSpec
  pub templates : Dict String

pub record Options : Type 0 where
  pub exposed_ports : List (ℤ × List ExposedPort)
  pub templates : Dict String

abbrev pub default_application_port : ℤ
default_application_port = pos 8888

-- `WithExposedPorts`
unfoldable pub with_exposed_ports : List (ℤ × List ExposedPort) → List (ℤ × List ExposedPort)
with_exposed_ports [] = []
with_exposed_ports ((version, []) ∷ ports) =
    (version, record { port = default_application_port; protocol = "TCP" } ∷ [])
    ∷ with_exposed_ports ports
with_exposed_ports ((version, p ∷ ps) ∷ ports) = (version, p ∷ ps) ∷ with_exposed_ports ports

-- m[version], nil if it is missing
unfoldable pub ports_at : ℤ → List (ℤ × List ExposedPort) → List ExposedPort
ports_at version [] = []
ports_at version ((w, ports) ∷ m) = if beq_ℤ w version then ports else ports_at version m

unfoldable pub image_pull_secrets : List String → DockerRegistrySpec → List String
image_pull_secrets [] spec = if spec.secret_name == "" then [] else spec.secret_name ∷ []
image_pull_secrets (s ∷ ss) spec = s ∷ ss

-- c.procfile.Processes[name], nil if it is missing
abbrev pub cmd_of : String → Dict (List String) → List String
cmd_of name processes = elim (lookup name processes) [ none ↦ [] | some cmd ↦ cmd ]

-- The options that `New` gives to `newProcess`.
abbrev pub process_options : AppSpec → ℤ → Configurator → ProcessSpec → List ProcessOption
process_options spec version c p =
    with_cmd (cmd_of p.name c.procfile.processes)
    ∷ with_units p.units
    ∷ with_envs p.env
    ∷ with_ports_and_probes (port_configurator c)
    ∷ with_lifecycle (lifecycle c)
    ∷ with_security_context p.security_context
    ∷ with_resource_requirements p.resources
    ∷ with_volumes p.volumes
    ∷ with_volume_mounts p.volume_mounts
    ∷ with_labels spec.labels version
    ∷ with_annotations spec.annotations version
    ∷ []

abbrev pub Service : Type 0
Service = Option GatewayService

-- The loop over the processes of a deployment, of which `d` holds those made so far.
unfoldable pub add_processes :
    AppSpec
    → Procfile
    → Configurator
    → List ProcessSpec
    → Deployment
    → Service
    → Result (Deployment × Service)
unfolding new_process is_routable lookup lifecycle port_configurator
add_processes spec procfile c [] d service = ok (d, service)
add_processes spec procfile c (p ∷ ps) d service =
    let routable = is_routable procfile p.name in
    new_process p.name routable (process_options spec d.version c p) >>= λ process.
    add_processes spec procfile c ps (record d { processes = d.processes ++ (process ∷ []) })
      (if routable && ltb 0 d.routing_settings.weight
        then some (record { deployment = d; process = process })
        else service)

-- One round of the loop over the deployments.
unfoldable pub add_deployment :
    AppSpec → Options → AppDeploymentSpec → Service → Result (Deployment × Service)
unfolding image_pull_secrets ports_at add_processes procfile_from_processes new_configurator
add_deployment spec options d service = procfile_from_processes d.processes >>= λ procfile.
    add_processes spec procfile
      (new_configurator d.ketch_yaml procfile (ports_at d.version options.exposed_ports)
        default_application_port)
      d.processes
      (record {
        image_pull_secrets = image_pull_secrets d.image_pull_secrets spec.docker_registry;
        image = d.image;
        version = d.version;
        processes = [];
        labels = d.labels;
        routing_settings = d.routing_settings;
      })
      service

unfoldable pub add_deployments :
    AppSpec
    → Options
    → List AppDeploymentSpec
    → List Deployment
    → Service
    → Result (List Deployment × Service)
unfolding add_deployment
add_deployments spec options [] made service = ok (made, service)
add_deployments spec options (d ∷ ds) made service = add_deployment spec options d service >>= λ r.
    add_deployments spec options ds (made ++ (r.0 ∷ [])) r.1

-- `isAppAccessible`
unfoldable pub is_app_accessible : Ingress → List Deployment → Bool
is_app_accessible ingress deployments =
    if beq (length ingress.http + length ingress.https) 0
    then false
    else any (λ d. any (λ p. p.routable) d.processes) deployments

-- `New`
unfoldable pub new_chart : Options → App → Result ApplicationChart
unfolding new_ingress add_deployments is_app_accessible get_type
new_chart options application =
    let spec = application.spec in
    new_ingress application spec.ingress.controller >>= λ ingress.
    add_deployments spec options spec.deployments [] none >>= λ r. ok (record {
      app = record {
        id = spec.id;
        name = application.name;
        deployments = r.0;
        env = spec.env;
        ingress = ingress;
        is_accessible = is_app_accessible ingress r.0;
        service = r.1;
        metadata_labels = spec.labels;
        metadata_annotations = spec.annotations;
        service_account_name = spec.service_account_name;
        security_context = spec.security_context;
        volume_claim_templates = spec.volume_claim_templates;
        type = get_type spec;
      };
      ingress_controller = spec.ingress.controller;
      templates = options.templates;
    })

pub record ChartConfig : Type 0 where
  pub version : String
  pub description : String
  pub app_name : String
  pub app_version : String
  pub deployment_versions : List ℤ

-- `deploymentVersions`
abbrev pub deployment_versions : App → List ℤ
deployment_versions app = map (λ d. d.version) app.spec.deployments

-- `NewChartConfig`, of the generation of the app.
unfoldable pub new_chart_config : ℤ → App → ChartConfig
unfolding itoa
new_chart_config generation app = record {
  version = concat ("v0.0." ∷ itoa generation ∷ []);
  description = app.spec.description;
  app_name = app.name;
  app_version = elim app.spec.version [
    | none ↦ concat ("v" ∷ itoa generation ∷ [])
    | some version ↦ version
  ];
  deployment_versions = deployment_versions app;
}
