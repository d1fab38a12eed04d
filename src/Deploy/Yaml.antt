-- ===== src/Deploy/Yaml.antt =====
-- internal/deploy/yaml.go: an application.yaml as a `ChangeSet`, and an App as an application.yaml.
pub mod Latest
pub mod RoundTrip
use ketch.Base.{
  String, Bool, true, false, List, [], ◌∷◌, map, Option, none, some, ℤ, pos, ltb_ℤ, Result, ok, err,
  message, panic, ◌>>=◌, ◌==◌, not, if◌then◌else◌, concat,
}
use ketch.App.{Env, Cname, ProcessSpec, AppDeploymentSpec, App}
use ketch.Deploy.Flags.{Options, ChangeSet}
use ketch.Deploy.Getters.{make_environments}

-- `Process`
pub record YamlProcess : Type 0 where
  pub name : String
  pub units : Option ℤ

-- `CName`
pub record YamlCname : Type 0 where
  pub dns_name : String
  pub secure : Bool

-- A nil slice is `none` where the code tells it from an empty one.
pub record Application : Type 0 where
  pub version : Option String
  pub type : Option String
  pub name : Option String
  pub image : Option String
  pub namespace : Option String
  pub description : Option String
  pub environment : Option (List String)
  pub registry_secret : Option String
  pub builder : Option String
  pub build_packs : Option (List String)
  pub processes : Option (List YamlProcess)
  pub cname : Option YamlCname

unfoldable pub to_process_specs : List Env → List YamlProcess → List ProcessSpec
to_process_specs envs [] = []
to_process_specs envs (p ∷ ps) =
    record {
      name = p.name;
      units = p.units;
      env = envs;
      cmd = [];
      resources = none;
      volumes = [];
      volume_mounts = [];
      security_context = none;
    }
    ∷ to_process_specs envs ps

abbrev pub non_empty {ℓ} : {A : Type ℓ} → List A → Option (List A)
non_empty [] = none
non_empty (x ∷ xs) = some (x ∷ xs)

abbrev pub or_some {ℓ} : {A : Type ℓ} → A → Option A → A
or_some a none = a
or_some a (some b) = b

unfoldable pub with_default_units : ProcessSpec → ProcessSpec
with_default_units p = record p { units = some (or_some (pos 1) p.units) }

-- `applyDefaults`
unfoldable pub apply_defaults : ChangeSet → ChangeSet
unfolding with_default_units
apply_defaults c = record c {
  app_version = some (or_some "v1" c.app_version);
  app_type = some (or_some "Application" c.app_type);
  yaml_strict_decoding = true;
  processes = elim c.processes [ none ↦ none | some ps ↦ some (map with_default_units ps) ];
}

-- `validate`
unfoldable pub validate : ChangeSet → Result (Unit {0})
validate c = elim c.namespace [
  | none ↦ err (message "missing required field namespace")
  | some namespace ↦ elim c.image [
    | none ↦ err (message "missing required field image")
    | some image ↦
        if c.app_name == ""
        then err (message "missing required field name")
        else (elim c.source_path [
          | some path ↦ ok tt
          | none ↦ elim c.processes [
            | none ↦ ok tt
            | some ps ↦ err (message "running defined processes require a sourcePath")
          ]
        ])
  ]
]

-- The change set of a decoded application with a name.
unfoldable pub change_set_of : Options → Application → String → List Env → ChangeSet
unfolding to_process_specs
change_set_of o application name envs = record {
  app_name = name;
  yaml_strict_decoding = false;
  source_path = if o.app_source_path == "" then none else some o.app_source_path;
  image = application.image;
  namespace = application.namespace;
  ketch_yaml_file_name = none;
  steps = none;
  step_time_interval = none;
  wait = some o.wait;
  timeout = some o.timeout;
  sub_paths = none;
  description = application.description;
  envs = application.environment;
  docker_registry_secret = application.registry_secret;
  builder = application.builder;
  build_packs = application.build_packs;
  volume = none;
  volume_mount_path = none;
  volume_mount_options = none;
  fs_group = none;
  run_as_user = none;
  app_version = application.version;
  app_type = application.type;
  processes = non_empty (to_process_specs envs (or_some [] application.processes));
  ketch_yaml_data = none;
  cname = elim application.cname [
    | none ↦ none
    | some c ↦ some (record { name = c.dns_name; secure = c.secure; secret_name = "" } ∷ [])
  ];
  units = none;
  version = none;
  process = none;
}

-- `GetChangeSetFromYaml` of a file that was read and decoded; a missing name is a nil dereference.
unfoldable pub get_change_set_from_yaml : Options → Application → Result ChangeSet
unfolding make_environments change_set_of apply_defaults validate
get_change_set_from_yaml o application =
    make_environments (or_some [] application.environment) >>= λ envs. elim application.name [
      | none ↦ err panic
      | some name ↦
          (let c = apply_defaults (change_set_of o application name envs) in
            validate c >>= λ valid. ok c)
    ]

-- The loop of `getLatestDeployment`: the deployments that were passed over, the last one first, and the
-- latest one so far. When a later one is found, its version overwrites that of the one it replaces.
unfoldable pub latest_loop :
    List AppDeploymentSpec
    → AppDeploymentSpec
    → List AppDeploymentSpec
    → List AppDeploymentSpec × AppDeploymentSpec
latest_loop passed latest [] = (passed, latest)
latest_loop passed latest (d ∷ ds) = elim (ltb_ℤ latest.version d.version) [
  | true ↦ latest_loop (record latest { version = d.version } ∷ passed) d ds
  | false ↦ latest_loop (d ∷ passed) latest ds
]

unfoldable pub get_latest_deployment : List AppDeploymentSpec → Option AppDeploymentSpec
unfolding latest_loop
get_latest_deployment [] = none
get_latest_deployment (d ∷ ds) = some (latest_loop [] d ds).1

abbrev pub some_text : String → Option String
some_text t = if t == "" then none else some t

unfoldable pub to_yaml_process : ProcessSpec → YamlProcess
to_yaml_process p = record { name = p.name; units = p.units }

-- `GetApplicationFromKetchApp`
unfoldable pub get_application_from_ketch_app : App → Application
unfolding get_latest_deployment to_yaml_process
get_application_from_ketch_app app =
    let deployment = get_latest_deployment app.spec.deployments in
    record {
      version = app.spec.version;
      type = some "Application";
      name = some app.name;
      image = elim deployment [ none ↦ none | some d ↦ some d.image ];
      namespace = some app.spec.namespace;
      description = some_text app.spec.description;
      environment = non_empty (map (λ env. concat (env.name ∷ "=" ∷ env.value ∷ [])) app.spec.env);
      registry_secret = some_text app.spec.docker_registry.secret_name;
      builder = some_text app.spec.builder;
      build_packs = non_empty app.spec.build_packs;
      processes = elim deployment [
        | none ↦ none
        | some d ↦ non_empty (map to_yaml_process d.processes)
      ];
      cname = elim app.spec.ingress.cnames [
        | [] ↦ none
        | c ∷ cs ↦ some (record { dns_name = c.name; secure = c.secure })
      ];
    }
