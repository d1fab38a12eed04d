-- ===== src/Deploy/Run.antt =====
-- `Run`, `buildFromSource` and `deployImage` of internal/deploy/deploy.go: a deployment from its flags to the
-- app that is stored. The retries on a conflict are client-go's; here a client's call is made once.
pub mod Canary
use ketch.Base.{
  String, Bool, true, false, List, [], ◌∷◌, Option, none, some, ℤ, pos, ◌+ℤ◌, Result, ok, err,
  Error, not_found, message, wrap, ◌>>=◌, ◌==◌, ◌&&◌, if◌then◌else◌, concat,
}
use ketch.App.{Time, Volume, KetchYamlData, App}
use ketch.Chart.Procfile.{Procfile, ImageConfig, make_procfile}
use ketch.Deploy.{System, or_zero}
use ketch.Deploy.Flags.{ChangeSet}
use ketch.Deploy.Getters.{
  get_image, get_steps, get_step_weight, get_units, get_version, get_process, get_volume_mounts,
  get_wait, has_secure_cnames,
}
use ketch.Deploy.Files.{
  get_source_directory, get_step_interval, get_timeout, get_volume_name, get_volumes,
  get_ketch_yaml,
}
use ketch.Deploy.Update.{Write, create, update, keep, get_updated_app}
use ketch.Deploy.Crd.{UpdateRequest, update_app_crd}

-- `CreateImageFromSourceRequest` with its working directory
pub record BuildRequest : Type 0 where
  pub app_name : String
  pub image : String
  pub builder : String
  pub build_packs : List String
  pub working_dir : String

-- `ImageConfigRequest`
pub record ImageConfigRequest : Type 0 where
  pub image_name : String
  pub secret_name : String
  pub secret_namespace : String

-- `Services`: the errors of the client's calls in their order, the builder, the registry, the decoding of an
-- image's metadata, the claims by namespace and name, the wait for a deployed app, and the clock.
pub record Services : Type 0 where
  pub system : System
  pub get_error : Option Error
  pub write_error : Write → Option Error
  pub get_again_error : Option Error
  pub update_error : App → Option Error
  pub builder : BuildRequest → Option Error
  pub image_config : ImageConfigRequest → Result ImageConfig
  pub decode : String → Result (List String)
  pub claim : String → String → Option Error
  pub wait : App → ℤ → Option Error
  pub now : Time

-- The app that is stored after a deployment, and the deployment's error.
pub record Deployed : Type 0 where
  pub stored : Option App
  pub error : Option Error

-- The client's Get of the stored app.
abbrev pub get_app : Option Error → Option App → Result App
get_app (some e) stored = err e
get_app none none = err not_found
get_app none (some app) = ok app

-- A call whose only result is its error.
abbrev pub done_unless : Option Error → Result (Unit {0})
done_unless none = ok tt
done_unless (some e) = err e

module _ (services : Services) (cs : ChangeSet) where
  -- `buildFromSource`, for a change set with a source path
  unfoldable pub build : App → String → Result (Unit {0})
  unfolding get_source_directory
  build app image = elim cs.source_path [
    | none ↦ ok tt
    | some _ ↦
        (let path = or_zero "" (get_source_directory services.system cs) in
          elim (services.builder (record {
            app_name = cs.app_name;
            image = image;
            builder = app.spec.builder;
            build_packs = app.spec.build_packs;
            working_dir = path;
          })) [
            | none ↦ ok tt
            | some e ↦
                err
                  (wrap (concat ("failed to build image from source path \"" ∷ path ∷ "\"" ∷ [])) e)
          ])
  ]

  -- The loop over the volumes.
  unfoldable pub find_claims : String → List Volume → Result (Unit {0})
  find_claims namespace [] = ok tt
  find_claims namespace (v ∷ vs) = elim (services.claim namespace v.claim_name) [
    | some e ↦ err (wrap "create pvc or input correct pvc name" e)
    | none ↦ find_claims namespace vs
  ]

  unfoldable pub request_of : String → Option KetchYamlData → ImageConfig → Procfile → UpdateRequest
  unfolding get_steps get_step_weight get_step_interval get_units get_version get_process
      get_volume_name get_volumes get_volume_mounts
  request_of image yaml config procfile = record {
    app_version = cs.app_version;
    image = image;
    steps = or_zero (pos 0) (get_steps cs);
    step_weight = or_zero 0 (get_step_weight cs);
    proc_file = procfile;
    ketch_yaml = yaml;
    config_ports = config.exposed_ports;
    next_scheduled_time = services.now +ℤ or_zero (pos 0) (get_step_interval services.system cs);
    started = services.now;
    step_time_interval = or_zero (pos 0) (get_step_interval services.system cs);
    units = or_zero (pos 0) (get_units cs);
    version = or_zero (pos 0) (get_version cs);
    process = or_zero "" (get_process cs);
    processes = cs.processes;
    volume = or_zero "" (get_volume_name services.system cs);
    volumes = or_zero [] (get_volumes services.system cs);
    volume_mounts = or_zero [] (get_volume_mounts cs);
  }

  -- `deployImage` from its check of the cnames up to the request for `updateAppCRD`.
  unfoldable pub fetch_and_request : App → Option KetchYamlData → Result UpdateRequest
  unfolding get_image build make_procfile find_claims get_volumes request_of
  fetch_and_request app yaml =
      let image = or_zero "" (get_image cs) in
      build app image >>= λ built.
      services.image_config (record {
        image_name = image;
        secret_name = app.spec.docker_registry.secret_name;
        secret_namespace = app.spec.namespace;
      })
      >>= λ config. make_procfile services.decode config >>= λ procfile.
          find_claims app.spec.namespace (or_zero [] (get_volumes services.system cs)) >>= λ found.
          ok (request_of image yaml config procfile)

  unfoldable pub make_request : App → Result UpdateRequest
  unfolding get_ketch_yaml has_secure_cnames fetch_and_request
  make_request app = get_ketch_yaml services.system cs >>= λ yaml.
      if app.spec.ingress.controller.cluster_issuer == "" && has_secure_cnames cs
      then err (message "secure cnames require a framework.Ingress.ClusterIssuer to be specified")
      else fetch_and_request app yaml

  -- The app that `updateAppCRD` writes, of the app that it gets.
  abbrev pub update_with : UpdateRequest → Result App → Result App
  update_with args (err e) =
      err (wrap (concat ("could not get app to deploy \"" ∷ cs.app_name ∷ "\"" ∷ [])) e)
  update_with args (ok app) = update_app_crd args app >>= λ app'.
      done_unless (services.update_error app') >>= λ written. ok app'

  unfoldable pub updated_app : UpdateRequest → Option App → Result App
  unfolding update_app_crd
  updated_app args stored = update_with args (get_app services.get_again_error stored)

  abbrev pub deployment_type : String
  deployment_type = elim cs.source_path [ none ↦ "image" | some path ↦ "source" ]

  -- The wait at the end.
  unfoldable pub wait_for : App → Option Error
  unfolding get_wait get_timeout
  wait_for app =
      if or_zero false (get_wait cs)
      then services.wait app (or_zero (pos 0) (get_timeout services.system cs))
      else none

  -- The end of `deployImage`, of what `updateAppCRD` returns.
  abbrev pub after_update : Option App → Result App → Deployed
  after_update stored (err e) = record {
    stored = stored;
    error = some (wrap (concat ("deploy from " ∷ deployment_type ∷ " failed" ∷ [])) e);
  }
  after_update stored (ok app) = record { stored = some app; error = wait_for app }

  abbrev pub after_request : Option App → Result UpdateRequest → Deployed
  after_request stored (err e) = record { stored = stored; error = some e }
  after_request stored (ok args) = after_update stored (updated_app args stored)

  -- `deployImage`
  unfoldable pub deploy_image : App → Option App → Deployed
  unfolding make_request updated_app wait_for
  deploy_image app stored = after_request stored (make_request app)

  -- The client's create or update of an app; then `deployImage` with it.
  abbrev pub after_write : Option App → App → Option Error → Deployed
  after_write stored app (some e) = record { stored = stored; error = some e }
  after_write stored app none = deploy_image app (some app)

  abbrev pub write_and_deploy : Option App → Result Write → Deployed
  write_and_deploy stored (err e) = record { stored = stored; error = some e }
  write_and_deploy stored (ok (create app)) =
      after_write stored app (services.write_error (create app))
  write_and_deploy stored (ok (update app)) =
      after_write stored app (services.write_error (update app))
  write_and_deploy stored (ok (keep app)) = deploy_image app stored

  -- `Run`
  unfoldable pub run : Option App → Deployed
  unfolding get_updated_app deploy_image
  run stored =
      write_and_deploy stored
        (get_updated_app services.system cs (get_app services.get_error stored))
