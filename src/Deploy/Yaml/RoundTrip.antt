-- ===== src/Deploy/Yaml/RoundTrip.antt =====
-- An App that is exported as an application.yaml and deployed again.
use ketch.Base.{
  String, Bool, false, List, [], ◌∷◌, map, none, some, pos, ok, err, Error, message, ◌≡◌, refl, ap,
  sym, ◌∙◌, arith, ◌==◌, concat, if◌then◌else◌,
}
use ketch.App.{Env, ProcessSpec, AppDeploymentSpec, App}
use ketch.Deploy.Flags.{Options, ChangeSet}
use ketch.Deploy.Getters.{make_environments}
use ketch.Deploy.Yaml.{
  Application, or_some, non_empty, to_process_specs, to_yaml_process, with_default_units,
  apply_defaults, validate, change_set_of, get_change_set_from_yaml, get_latest_deployment,
  get_application_from_ketch_app,
}

abbrev pub print_env : Env → String
print_env env = concat (env.name ∷ "=" ∷ env.value ∷ [])

-- The app has a name, a latest deployment with processes, and variables that read back.
pub record IsExportable (app : App) : Type 0 where
  pub named : (app.name == "") ≡ false
  pub latest : AppDeploymentSpec
  pub is_latest : get_latest_deployment app.spec.deployments ≡ some latest
  pub process : ProcessSpec
  pub others : List ProcessSpec
  pub processes : latest.processes ≡ process ∷ others
  pub envs : List Env
  pub readable : make_environments (map print_env app.spec.env) ≡ ok envs

-- What the file of the app asks for again.
pub record AsksAgain (app : App) (latest : AppDeploymentSpec) (cs : ChangeSet) : Type 0 where
  pub app_name : cs.app_name ≡ app.name
  pub image : cs.image ≡ some latest.image
  pub namespace : cs.namespace ≡ some app.spec.namespace
  pub processes :
      (specs : List ProcessSpec) × (cs.processes ≡ some specs)
      × (map (λ p. p.name) specs ≡ map (λ p. p.name) latest.processes)
      × (map (λ p. p.units) specs ≡ map (λ p. some (or_some (pos 1) p.units)) latest.processes)

envs_read : (es : List Env) → or_some [] (non_empty (map print_env es)) ≡ map print_env es
envs_read [] = refl
envs_read (e ∷ es) = refl

abbrev defaulted : List Env → List ProcessSpec → List ProcessSpec
defaulted envs ps = map with_default_units (to_process_specs envs (map to_yaml_process ps))

defaulted_names :
    (envs : List Env) (ps : List ProcessSpec)
    → map (λ p. p.name) (defaulted envs ps) ≡ map (λ p. p.name) ps
unfolding to_process_specs with_default_units to_yaml_process
defaulted_names envs [] = refl
defaulted_names envs (p ∷ ps) = ap (◌∷◌ p.name) (defaulted_names envs ps)

defaulted_units :
    (envs : List Env) (ps : List ProcessSpec)
    → map (λ p. p.units) (defaulted envs ps) ≡ map (λ p. some (or_some (pos 1) p.units)) ps
unfolding to_process_specs with_default_units to_yaml_process
defaulted_units envs [] = refl
defaulted_units envs (p ∷ ps) = ap (◌∷◌ (some (or_some (pos 1) p.units))) (defaulted_units envs ps)

-- `validate` of a change set with processes and everything it requires.
validate-processes :
    (c : ChangeSet) (namespace image path : String) (ps : List ProcessSpec)
    → c.namespace ≡ some namespace
    → c.image ≡ some image
    → (c.app_name == "") ≡ false
    → c.processes ≡ some ps
    → c.source_path ≡ (if path == "" then none else some path)
    → validate c ≡ (
        if path == ""
        then err (message "running defined processes require a sourcePath")
        else ok tt)
unfolding validate
validate-processes c namespace image path ps a b n d s = ground (arith, a, b, n, d, s)

get_change_set_from_yaml-validate :
    (o : Options) (a : Application) (name : String) (envs : List Env) (x : Error) (b : Bool)
    → make_environments (or_some [] a.environment) ≡ ok envs
    → a.name ≡ some name
    → validate (apply_defaults (change_set_of o a name envs)) ≡ (if b then err x else ok tt)
    → get_change_set_from_yaml o a
      ≡ (if b then err x else ok (apply_defaults (change_set_of o a name envs)))
unfolding get_change_set_from_yaml
get_change_set_from_yaml-validate o a name envs x b h n v = ground (arith, h, n, v)

module _ (app : App) (e : IsExportable app) where
  abbrev file : Application
  file = get_application_from_ketch_app app

  file_image : file.image ≡ some e.latest.image
  unfolding get_application_from_ketch_app
  file_image = ground (arith, e.is_latest)

  file_name : file.name ≡ some app.name
  unfolding get_application_from_ketch_app
  file_name = refl

  file_processes : file.processes ≡ some (map to_yaml_process (e.process ∷ e.others))
  unfolding get_application_from_ketch_app
  file_processes = ground (arith, e.is_latest, e.processes)

  file_envs : make_environments (or_some [] file.environment) ≡ ok e.envs
  unfolding get_application_from_ketch_app
  file_envs = ap make_environments (envs_read app.spec.env) ∙ e.readable

  module _ (o : Options) where
    abbrev again : ChangeSet
    again = apply_defaults (change_set_of o file app.name e.envs)

    again_processes : again.processes ≡ some (defaulted e.envs (e.process ∷ e.others))
    unfolding apply_defaults change_set_of to_process_specs
    again_processes = rw file_processes refl

    again_fields :
        (again.app_name ≡ app.name)
        × (again.image ≡ file.image)
        × (again.namespace ≡ some app.spec.namespace)
        × (again.source_path ≡ (if o.app_source_path == "" then none else some o.app_source_path))
    unfolding apply_defaults change_set_of get_application_from_ketch_app
    again_fields = (refl, refl, refl, refl)

    again-AsksAgain : AsksAgain app e.latest again
    again-AsksAgain = record {
      app_name = again_fields.0;
      image = again_fields.1 ∙ file_image;
      namespace = again_fields.2;
      processes = (
        defaulted e.envs (e.process ∷ e.others),
        again_processes,
        defaulted_names e.envs (e.process ∷ e.others) ∙ ap (map (λ p. p.name)) (sym e.processes),
        defaulted_units e.envs (e.process ∷ e.others)
            ∙ ap (map (λ p. some (or_some (pos 1) p.units))) (sym e.processes),
      );
    }

    again-validate : validate again ≡ (
        if o.app_source_path == ""
        then err (message "running defined processes require a sourcePath")
        else ok tt)
    unfolding apply_defaults change_set_of
    again-validate =
        validate-processes again app.spec.namespace e.latest.image o.app_source_path
          (defaulted e.envs (e.process ∷ e.others)) again_fields.2 (again_fields.1 ∙ file_image)
          e.named again_processes again_fields.3

    -- The file of an exported app asks for the app again, and is refused without a source path.
    pub get_change_set_from_yaml-export :
        (cs : ChangeSet) × AsksAgain app e.latest cs
        × (get_change_set_from_yaml o file ≡ (
            if o.app_source_path == ""
            then err (message "running defined processes require a sourcePath")
            else ok cs))
    unfolding get_change_set_from_yaml
    get_change_set_from_yaml-export = (
      again,
      again-AsksAgain,
      get_change_set_from_yaml-validate o file app.name e.envs
          (message "running defined processes require a sourcePath") (o.app_source_path == "")
          file_envs file_name again-validate,
    )
