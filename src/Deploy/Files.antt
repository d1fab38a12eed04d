-- ===== src/Deploy/Files.antt =====
-- The getters of internal/deploy/parameters.go that ask the file system or a third-party function, and
-- `directoryExists`.
use ketch.Base.{
  String, Bool, true, List, [], ◌∷◌, Option, none, some, ℤ, Result, ok, err, message, wrap, ◌>>=◌,
  if◌then◌else◌, concat, ◌==◌, ◌&&◌, not,
}
use ketch.App.{Volume, KetchYamlData}
use ketch.Deploy.{
  not_exist, stat_failed, directory, regular_file, System, new_invalid_value_error, is_missing,
  is_valid,
}
use ketch.Deploy.Flags.{ChangeSet}
use ketch.Deploy.Getters.{required}

module _ (system : System) where
  unfoldable pub get_yaml_path : ChangeSet → Result String
  get_yaml_path cs = required "ketch-yaml" cs.ketch_yaml_file_name >>= λ path.
      elim (system.stat path) [
        | regular_file ↦ ok path
        | directory ↦ err (
            wrap (concat (path ∷ " is not a regular file" ∷ []))
              (new_invalid_value_error "ketch-yaml"))
        | _ ↦ err (new_invalid_value_error "ketch-yaml")
      ]

  -- `directoryExists`
  unfoldable pub directory_exists : String → Result (Unit {0})
  directory_exists dir = elim (system.stat dir) [
    | directory ↦ ok tt
    | not_exist ↦ err (wrap "directory doesn't exist" (new_invalid_value_error dir))
    | stat_failed ↦ err (wrap "test for directory failed" (message "stat"))
    | regular_file ↦ err (wrap "not a directory" (new_invalid_value_error dir))
  ]

  unfoldable pub get_source_directory : ChangeSet → Result String
  unfolding directory_exists
  get_source_directory cs =
      required "source directory" cs.source_path >>= λ path. directory_exists path >>= λ _. ok path

  unfoldable pub get_step_interval : ChangeSet → Result ℤ
  get_step_interval cs = required "step-interval" cs.step_time_interval >>= λ text.
      elim (system.parse_duration text) [
        | none ↦ err (new_invalid_value_error "step-interval")
        | some duration ↦ ok duration
      ]

  unfoldable pub get_timeout : ChangeSet → Result ℤ
  get_timeout cs = required "timeout" cs.timeout >>= λ text. elim (system.parse_duration text) [
    | none ↦ err (new_invalid_value_error "timeout")
    | some duration ↦ ok duration
  ]

  unfoldable pub get_volume_name : ChangeSet → Result String
  get_volume_name cs = required "volume" cs.volume >>= λ volume.
      if system.is_dns1123_label volume
      then ok volume
      else err (wrap "volume" (new_invalid_value_error "volume"))

  unfoldable pub get_volumes : ChangeSet → Result (List Volume)
  unfolding get_volume_name
  get_volumes cs =
      get_volume_name cs >>= λ name. ok (record { name = name; claim_name = name } ∷ [])

  -- The test on the error of a getter in `getKetchYaml`: the value, unless it is missing or invalid. After
  -- any other error the value is empty.
  abbrev pub found_or : String → Result String → String
  found_or other (ok path) = path
  found_or other (err e) = if not (is_missing e) && is_valid e then "" else other

  -- The file that `getKetchYaml` looks for in the source directory.
  unfoldable pub default_yaml : Result String → String
  default_yaml source =
      let usable : Bool = elim source [
        | ok path ↦ true
        | err e ↦ not (is_missing e) && is_valid e
      ] in
      let dir : String = elim source [ ok dir ↦ dir | err e ↦ "" ] in
      let path = system.join_path dir "ketch.yaml" in
      if usable
      then (elim (system.stat path) [
        | not_exist ↦ ""
        | stat_failed ↦ ""
        | directory ↦ ""
        | regular_file ↦ path
      ])
      else ""

  unfoldable pub get_ketch_yaml : ChangeSet → Result (Option KetchYamlData)
  unfolding get_source_directory get_yaml_path default_yaml
  get_ketch_yaml cs = elim cs.ketch_yaml_data [
    | some yaml ↦ ok (some yaml)
    | none ↦
        (let file = found_or (default_yaml (get_source_directory cs)) (get_yaml_path cs) in
          if file == ""
          then ok none
          else system.read_ketch_yaml cs.yaml_strict_decoding file >>= λ yaml. ok (some yaml))
  ]
