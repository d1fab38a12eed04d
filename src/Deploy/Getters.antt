-- ===== src/Deploy/Getters.antt =====
-- The checked readers of a `ChangeSet` in internal/deploy/parameters.go, utils.MakeEnvironments and
-- `directoryExists` of validations.go.
use ketch.Base.{
  ℕ, ◌/◌, String, Bool, false, List, [], ◌∷◌, Option, none, some, ℤ, pos, negsuc, ltb_ℤ, leb_ℤ,
  to_uint8, Dict, lookup, Result, ok, err, message, wrap, ◌>>=◌, ◌==◌, ◌&&◌, ◌||◌, not,
  if◌then◌else◌, any, split, trim_space, parse_bool,
}
use ketch.App.{Env, VolumeMount, AppSpec}
use ketch.Deploy.{new_missing_error, new_invalid_value_error, new_invalid_usage_error}
use ketch.Deploy.Flags.{ChangeSet}

-- The body of a getter that only reports a flag that was not set.
abbrev pub required {ℓ} : {A : Type ℓ} → String → Option A → Result A
required flag none = err (new_missing_error flag)
required flag (some a) = ok a

unfoldable pub get_description : ChangeSet → Result String
get_description cs = required "description" cs.description

unfoldable pub get_image : ChangeSet → Result String
get_image cs = elim cs.image [
  | none ↦ err (wrap "image is required" (new_missing_error "image"))
  | some image ↦ ok image
]

unfoldable pub get_namespace : ChangeSet → Result String
get_namespace cs = elim cs.namespace [
  | none ↦ err (wrap "namespace is required" (new_missing_error "namespace"))
  | some namespace ↦ ok namespace
]

abbrev pub minimum_steps : ℤ
minimum_steps = pos 2

abbrev pub maximum_steps : ℤ
maximum_steps = pos 100

unfoldable pub get_steps : ChangeSet → Result ℤ
get_steps cs = elim cs.steps [
  | none ↦ err (new_missing_error "steps")
  | some steps ↦
      if ltb_ℤ steps minimum_steps || ltb_ℤ maximum_steps steps
      then err (wrap "steps must be between 2 and 100" (new_invalid_value_error "steps"))
      else ok steps
]

-- 100 / steps, which `getSteps` keeps positive.
abbrev pub div_hundred : ℤ → ℤ
div_hundred (pos n) = pos (100 / n)
div_hundred (negsuc n) = pos 0

unfoldable pub get_step_weight : ChangeSet → Result ℕ
unfolding get_steps to_uint8
get_step_weight cs = get_steps cs >>= λ steps. ok (to_uint8 (div_hundred steps))

-- `MakeEnvironments`
unfoldable pub make_environments : List String → Result (List Env)
unfolding split trim_space
make_environments [] = ok []
make_environments (env ∷ envs) =
    let rest = make_environments envs in
    elim (split "=" env) [
      | [] ↦ err (message "env variables should have NAME=VALUE format")
      | name ∷ [] ↦ err (message "env variables should have NAME=VALUE format")
      | name ∷ value ∷ [] ↦
          rest >>= λ es. ok (record { name = trim_space name; value = trim_space value } ∷ es)
      | name ∷ value ∷ more ∷ parts ↦ err (message "env variables should have NAME=VALUE format")
    ]

unfoldable pub get_environments : ChangeSet → Result (List Env)
unfolding make_environments
get_environments cs = required "env" cs.envs >>= λ envs. elim (make_environments envs) [
  | ok es ↦ ok es
  | err e ↦ err (new_invalid_value_error "env")
]

unfoldable pub get_wait : ChangeSet → Result Bool
get_wait cs = required "wait" cs.wait

unfoldable pub get_docker_registry_secret : ChangeSet → Result String
get_docker_registry_secret cs = required "registry-secret" cs.docker_registry_secret

abbrev pub default_builder : String
default_builder = "heroku/buildpacks:20"

-- The builder, which the change set keeps.
unfoldable pub get_builder : AppSpec → ChangeSet → String × ChangeSet
get_builder spec cs = elim cs.builder [
  | some builder ↦ (builder, cs)
  | none ↦
      (let builder = if spec.builder == "" then default_builder else spec.builder in
        (builder, record cs { builder = some builder }))
]

unfoldable pub get_units : ChangeSet → Result ℤ
get_units cs = elim cs.units [
  | none ↦ ok (pos 1)
  | some units ↦
      if ltb_ℤ units (pos 1)
      then err (wrap "units must be 1 or greater" (new_invalid_value_error "units"))
      else ok units
]

unfoldable pub get_version : ChangeSet → Result ℤ
get_version cs = elim cs.version [
  | none ↦ ok (pos 0)
  | some version ↦ elim cs.units [
    | none ↦
        err (
          wrap "unit-version must be used with units flag" (new_invalid_usage_error "unit-version"))
    | some units ↦
        if ltb_ℤ version (pos 1)
        then err (wrap "unit-version must be 1 or greater" (new_invalid_value_error "unit-version"))
        else ok version
  ]
]

unfoldable pub get_process : ChangeSet → Result String
get_process cs = elim cs.process [
  | none ↦ ok ""
  | some process ↦ elim cs.units [
    | none ↦
        err (
          wrap "unit-process must be used with units flag" (new_invalid_usage_error "unit-process"))
    | some units ↦ ok process
  ]
]

-- The options of a volume mount: whether it is read only.
unfoldable pub get_read_only : Option (Dict String) → Result Bool
unfolding lookup parse_bool
get_read_only none = ok false
get_read_only (some options) = elim (lookup "readOnly" options) [
  | none ↦ ok false
  | some value ↦ elim (parse_bool value) [
    | none ↦ err (
        wrap "readOnly must be either true or false"
          (new_invalid_usage_error "volume-mount-options"))
    | some read_only ↦ ok read_only
  ]
]

-- `getVolumeMounts`, without a volume and with one.
abbrev pub mounts_without_volume : ChangeSet → Result (List VolumeMount)
mounts_without_volume cs = elim cs.volume_mount_path [
  | some path ↦ err (
      wrap "volume-mount-path must be used with volume flag"
        (new_invalid_usage_error "volume-mount-path"))
  | none ↦ elim cs.volume_mount_options [
    | some options ↦ err (
        wrap "volume-mount-options must be used with volume flag"
          (new_invalid_usage_error "volume-mount-options"))
    | none ↦ ok []
  ]
]

unfoldable pub mounts_of : ChangeSet → String → Result (List VolumeMount)
unfolding get_read_only
mounts_of cs volume = get_read_only cs.volume_mount_options >>= λ read_only.
    let path : String = elim cs.volume_mount_path [ none ↦ "" | some path ↦ path ] in
    ok (
      if path == "" && not read_only
      then []
      else record { name = volume; mount_path = path; read_only = read_only } ∷ [])

unfoldable pub get_volume_mounts : ChangeSet → Result (List VolumeMount)
unfolding mounts_of
get_volume_mounts cs = elim cs.volume [
  | none ↦ mounts_without_volume cs
  | some volume ↦ mounts_of cs volume
]

unfoldable pub get_fs_group : ChangeSet → Result ℤ
get_fs_group cs = elim cs.fs_group [
  | none ↦ ok (pos 0)
  | some group ↦
      if leb_ℤ group (pos 0)
      then err (wrap "fs-group must be 1 or greater" (new_invalid_value_error "fs-group"))
      else ok group
]

unfoldable pub get_run_as_user : ChangeSet → Result ℤ
get_run_as_user cs = elim cs.run_as_user [
  | none ↦ ok (pos 0)
  | some user ↦
      if ltb_ℤ user (pos 0)
      then err (wrap "run-as-user must be 0 or greater" (new_invalid_value_error "run-as-user"))
      else ok user
]

unfoldable pub get_build_packs : ChangeSet → Result (List String)
get_build_packs cs = required "build-packs" cs.build_packs

unfoldable pub has_secure_cnames : ChangeSet → Bool
has_secure_cnames cs = elim cs.cname [ none ↦ false | some cnames ↦ any (λ c. c.secure) cnames ]
