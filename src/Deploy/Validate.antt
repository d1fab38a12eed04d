-- ===== src/Deploy/Validate.antt =====
-- The checks of internal/deploy/validations.go: `validateDeploy`, `validateSourceDeploy` and
-- `validateCreateApp`, and validation.ValidateName.
pub mod Accepts
use Prim.Native.Char.{Char, code}
use Prim.Native.String
use ketch.Base.{
  ℕ, suc, String, Bool, false, List, [], ◌∷◌, Result, ok, err, message, ◌>>=◌, if◌then◌else◌, ◌&&◌,
  ◌||◌, leb, beq, all_chars,
}
use ketch.App.{AppDeploymentSpec, App}
use ketch.Deploy.{regular_file, System, is_missing, is_valid}
use ketch.Deploy.Flags.{ChangeSet}
use ketch.Deploy.Getters.{
  get_image, get_namespace, get_steps, get_units, get_version, get_process, get_volume_mounts,
  get_run_as_user, get_fs_group, get_wait,
}
use ketch.Deploy.Files.{
  get_source_directory, get_step_interval, get_timeout, get_volume_name, get_volumes,
}

-- The block that `validateDeploy` repeats: an error counts when it is one of an invalid flag.
unfoldable pub check {ℓ} : {A : Type ℓ} → Result A → Result (Unit {0})
unfolding is_missing is_valid
check (ok a) = ok tt
check (err e) = if is_missing e then ok tt else if is_valid e then ok tt else err e

-- The block on the steps of a canary: the app must have exactly one deployment.
unfoldable pub check_deployments : List AppDeploymentSpec → Result (Unit {0})
check_deployments [] =
    err (message "canary deployment failed. No primary deployment found for the app")
check_deployments (d ∷ []) = ok tt
check_deployments (d ∷ e ∷ ds) =
    err (
      message "canary deployment failed. Maximum number of two deployments are currently supported")

module _ (system : System) where
  unfoldable pub check_canary : ChangeSet → List AppDeploymentSpec → Result (Unit {0})
  unfolding is_missing is_valid check_deployments get_step_interval
  check_canary cs ds =
      let after = check_deployments ds >>= λ _. get_step_interval system cs >>= λ _. ok tt in
      elim (get_steps cs) [
        | ok steps ↦ after
        | err e ↦ if is_missing e then ok tt else if is_valid e then after else err e
      ]

  -- The block on the timeout: it is read when the deployment waits.
  unfoldable pub check_wait : ChangeSet → Result (Unit {0})
  unfolding get_wait get_timeout
  check_wait cs = elim (get_wait cs) [
    | err e ↦ ok tt
    | ok wait ↦ if wait then (get_timeout system cs >>= λ _. ok tt) else ok tt
  ]

  unfoldable pub validate_deploy : ChangeSet → App → Result (Unit {0})
  unfolding check_canary check check_wait
  validate_deploy cs app = get_image cs >>= λ _. check_canary cs app.spec.deployments >>= λ _.
      check (get_units cs) >>= λ _. check (get_version cs) >>= λ _. check (get_process cs) >>= λ _.
      check (get_volume_name system cs) >>= λ _. check (get_volumes system cs) >>= λ _.
      check (get_volume_mounts cs) >>= λ _.
      check (get_run_as_user cs) >>= λ _. check (get_fs_group cs) >>= λ _. check_wait cs

  unfoldable pub validate_source_deploy : ChangeSet → Result (Unit {0})
  unfolding get_source_directory
  validate_source_deploy cs = get_source_directory system cs >>= λ dir.
      elim (system.stat (system.join_path dir "Procfile")) [
        | regular_file ↦ ok tt
        | _ ↦ err (message "\"Procfile\" not found in root of source directory")
      ]

abbrev is_lower : Char → Bool
is_lower c = leb 97 (code c) && leb (code c) 122

abbrev is_name_char : Char → Bool
is_name_char c = is_lower c || (leb 48 (code c) && leb (code c) 57) || beq (code c) 45

abbrev count_chars : String → ℕ
count_chars String.[] = 0
count_chars (String.◌∷◌ c s) = suc (count_chars s)

-- `ValidateName`: ^[a-z][a-z0-9-]{0,39}$
unfoldable pub validate_name : String → Bool
unfolding all_chars
validate_name String.[] = false
validate_name (String.◌∷◌ c s) = is_lower c && leb (count_chars s) 39 && all_chars is_name_char s

unfoldable pub validate_create_app : String → ChangeSet → Result (Unit {0})
unfolding validate_name
validate_create_app name cs =
    if validate_name name
    then (get_namespace cs >>= λ namespace. get_image cs >>= λ image. ok tt)
    else err (message "app name is not valid")
