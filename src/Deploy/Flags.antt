-- ===== src/Deploy/Flags.antt =====
-- The flags of a deployment in internal/deploy/parameters.go: `Options`, the `ChangeSet` of the flags that
-- the user set, and `GetChangeSet`.
use ketch.Base.{String, Bool, List, Option, none, some, ℤ, Dict, ◌==◌, if◌then◌else◌}
use ketch.App.{Cname, ProcessSpec, KetchYamlData}

pub record Options : Type 0 where
  pub app_name : String
  pub image : String
  pub namespace : String
  pub ketch_yaml_file_name : String
  pub strict_ketch_yaml_decoding : Bool
  pub steps : ℤ
  pub step_time_interval : String
  pub wait : Bool
  pub timeout : String
  pub app_source_path : String
  pub sub_paths : List String
  pub description : String
  pub envs : List String
  pub docker_registry_secret : String
  pub builder : String
  pub build_packs : List String
  pub volume : String
  pub volume_mount_path : String
  pub volume_mount_options : Dict String
  pub fs_group : ℤ
  pub run_as_user : ℤ
  pub units : ℤ
  pub version : ℤ
  pub process : String

pub record ChangeSet : Type 0 where
  pub app_name : String
  pub yaml_strict_decoding : Bool
  pub source_path : Option String
  pub image : Option String
  pub namespace : Option String
  pub ketch_yaml_file_name : Option String
  pub steps : Option ℤ
  pub step_time_interval : Option String
  pub wait : Option Bool
  pub timeout : Option String
  pub sub_paths : Option (List String)
  pub description : Option String
  pub envs : Option (List String)
  pub docker_registry_secret : Option String
  pub builder : Option String
  pub build_packs : Option (List String)
  pub volume : Option String
  pub volume_mount_path : Option String
  pub volume_mount_options : Option (Dict String)
  pub fs_group : Option ℤ
  pub run_as_user : Option ℤ
  pub app_version : Option String
  pub app_type : Option String
  pub processes : Option (List ProcessSpec)
  pub ketch_yaml_data : Option KetchYamlData
  pub cname : Option (List Cname)
  pub units : Option ℤ
  pub version : Option ℤ
  pub process : Option String

-- An entry of the map of `GetChangeSet`: the pointer to the option when the flag was given.
abbrev pub given {ℓ} : {A : Type ℓ} → Bool → A → Option A
given changed a = if changed then some a else none

-- `GetChangeSet`; the flag set tells which flags were changed. No two entries of the map set the same
-- field.
unfoldable pub get_change_set : Options → (String → Bool) → ChangeSet
get_change_set o changed = record {
  app_name = o.app_name;
  yaml_strict_decoding = o.strict_ketch_yaml_decoding;
  source_path = if o.app_source_path == "" then none else some o.app_source_path;
  image = given (changed "image") o.image;
  namespace = given (changed "namespace") o.namespace;
  ketch_yaml_file_name = given (changed "ketch-yaml") o.ketch_yaml_file_name;
  steps = given (changed "steps") o.steps;
  step_time_interval = given (changed "step-interval") o.step_time_interval;
  wait = given (changed "wait") o.wait;
  timeout = some o.timeout;
  sub_paths = none;
  description = given (changed "description") o.description;
  envs = given (changed "env") o.envs;
  docker_registry_secret = given (changed "registry-secret") o.docker_registry_secret;
  builder = given (changed "builder") o.builder;
  build_packs = given (changed "build-packs") o.build_packs;
  volume = given (changed "volume") o.volume;
  volume_mount_path = given (changed "volume-mount-path") o.volume_mount_path;
  volume_mount_options = given (changed "volume-mount-options") o.volume_mount_options;
  fs_group = given (changed "fs-group") o.fs_group;
  run_as_user = given (changed "run-as-user") o.run_as_user;
  app_version = none;
  app_type = none;
  processes = none;
  ketch_yaml_data = none;
  cname = none;
  units = given (changed "units") o.units;
  version = given (changed "unit-version") o.version;
  process = given (changed "unit-process") o.process;
}
