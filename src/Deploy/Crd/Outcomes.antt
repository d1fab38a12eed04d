-- ===== src/Deploy/Crd/Outcomes.antt =====
-- What `updateAppCRD` makes of an app that has no canary at work.
use ketch.Base.{
  String, Option, lookup, map, not, add_int, if◌then◌else◌, ◌==◌, ◌&&◌, true, false, List, [], ◌∷◌,
  none, some, ℤ, pos, beq_ℤ, ltb_ℤ, ok, err, message, deployment_not_found, ◌≡◌, refl, ap, sym, ◌∙◌,
  arith, ◌>>=◌,
}
use ketch.App.{
  ProcessSpec, ExposedPort, AppDeploymentSpec, AppSpec, App, with_deployments,
  stateful_set_app_type,
}
use ketch.Chart.Procfile.{sorted_names}
use ketch.App.Units.{
  Selector, with_units, set_units_loop, set_units_for_all_process, update_units, is_skipped,
  with_processes, new_selector, set_units,
}
use ketch.App.Units.Laws.{outcome, set_units-outcome}
use ketch.App.Units.Lifecycle.{everything, set_units-everything}
use ketch.App.Canary.{do_rollback}
use ketch.Deploy.Crd.{
  has_two, is_empty, previous_processes, new_process_spec, new_process_specs, UpdateRequest,
  is_canary, new_count, new_deployment, add_deployment, with_version_and_type, apply_units,
  parse_ports, update_primary, update_app_crd, apply_processes,
}

-- After a rollback no request succeeds: the app is left with two deployments and no canary.
pub update_app_crd-rollback :
    (args : UpdateRequest) (app app' : App)
    → do_rollback app ≡ ok app'
    → update_app_crd args app'
      ≡ err (message "cannot have more than one deployment per app, unless canary")
unfolding update_app_crd do_rollback
update_app_crd-rollback args app app' h = ground (arith, h)

-- The request is for an image to be deployed alone, with units for all its processes, as the flags of
-- a deployment without steps give it; the app has no canary at work.
pub record AsksForImage (args : UpdateRequest) (app : App) : Type 0 where
  pub one_step : is_canary args ≡ false
  pub every_version : args.version ≡ pos 0
  pub every_process : args.process ≡ ""
  pub some_units : ltb_ℤ (pos 0) args.units ≡ true
  pub inactive : app.spec.canary.active ≡ false
  pub not_two : has_two app.spec.deployments ≡ false

-- The number of a deployment: the next one, unless the only deployment has the image already.
abbrev pub next_number : String → ℤ → List AppDeploymentSpec → ℤ
next_number image count [] = add_int count (pos 1)
next_number image count (d ∷ ds) = if d.image == image then count else add_int count (pos 1)

-- The process of a name of the Procfile: its command, and the units and the volumes of the request.
abbrev pub deployed_process : UpdateRequest → String → ProcessSpec
deployed_process args name = record {
  name = name;
  units = some args.units;
  env = [];
  cmd = elim (lookup name args.proc_file.processes) [ none ↦ [] | some cmd ↦ cmd ];
  resources = none;
  volumes = args.volumes;
  volume_mounts = args.volume_mounts;
  security_context = none;
}

-- The image is deployed with all the traffic, its processes those of the Procfile.
abbrev pub deployed_image : UpdateRequest → List ExposedPort → ℤ → AppDeploymentSpec
deployed_image args ports number = record {
  image_pull_secrets = [];
  image = args.image;
  version = number;
  processes = map (deployed_process args) (sorted_names args.proc_file);
  ketch_yaml = args.ketch_yaml;
  labels = [];
  routing_settings = record { weight = 100 };
  exposed_ports = ports;
}

-- The image is deployed alone under its number, which the app keeps, the version of the app is that of the
-- request, a first deployment with a volume makes it a stateful set, and nothing else has changed.
abbrev pub IsDeployed : UpdateRequest → List ExposedPort → App → App → Type 0
IsDeployed args ports app app' =
    let number = next_number args.image app.spec.deployments_count app.spec.deployments in
    app' ≡ record app {
      spec = record app.spec {
        version = args.app_version;
        type =
            if is_empty app.spec.deployments && not (args.volume == "")
            then some stateful_set_app_type
            else app.spec.type;
        deployments_count = number;
        deployments = deployed_image args ports number ∷ [];
      };
    }

next_number_lem :
    (args : UpdateRequest) (spec : AppSpec) (ds : List AppDeploymentSpec)
    → spec.deployments ≡ ds
    → has_two ds ≡ false
    → is_canary args ≡ false
    → new_count args spec ≡ next_number args.image spec.deployments_count ds
unfolding new_count previous_processes
next_number_lem args spec [] e h c = ground (arith, e, c)
next_number_lem args spec (d ∷ []) e h c = ground (arith, e, c)
next_number_lem args spec (d ∷ d' ∷ ds) e h c = cc

-- The processes of the names with the units of the request, whatever the previous ones were.
new_process_specs-units :
    (args : UpdateRequest) (previous : Option (List ProcessSpec)) (names : List String)
    → args.process ≡ ""
    → map (with_units args.units) (new_process_specs args previous names)
      ≡ map (deployed_process args) names
unfolding new_process_specs new_process_spec
new_process_specs-units args previous [] h = refl
new_process_specs-units args previous (name ∷ names) h =
    rw (h, new_process_specs-units args previous names h) refl

-- Units for version 1, of an app that has one deployment of another version.
apply_processes-missing :
    (app : App) (d : AppDeploymentSpec) (p : ProcessSpec) (ps : List ProcessSpec) (units : ℤ)
    → app.spec.deployments ≡ d ∷ []
    → beq_ℤ (pos 1) d.version ≡ false
    → p.units ≡ some units
    → apply_processes (p ∷ ps) app ≡ err deployment_not_found
unfolding apply_processes new_selector is_skipped
apply_processes-missing app d p ps units alone other u = rw (u, apply_processes, missing) refl
  where
    selector : Selector
    selector = new_selector (pos 1) p.name

    outcome_is : outcome selector (d ∷ []) ≡ err deployment_not_found
    outcome_is = ground (arith, other)

    missing : (set_units (new_selector (pos 1) p.name) units app).1 ≡ err deployment_not_found
    missing = set_units-outcome selector units app ∙ ap (outcome selector) alone ∙ outcome_is

set_units-alone :
    (units : ℤ) (app : App) (d : AppDeploymentSpec)
    → app.spec.deployments ≡ d ∷ []
    → (set_units everything units app).0
      ≡ with_deployments app (with_processes d (map (with_units units) d.processes) ∷ [])
unfolding set_units set_units_loop update_units set_units_for_all_process is_skipped
set_units-alone units app d alone = rw (set_units, alone) refl

module _ (args : UpdateRequest) (app : App) (asks : AsksForImage args app) where
  abbrev stored : App
  stored = with_version_and_type args app

  selector_is : new_selector args.version args.process ≡ everything
  unfolding new_selector
  selector_is = rw (asks.every_version, asks.every_process) refl

  -- The units are set on every process.
  apply_units-whole :
      (added : App) → apply_units args added ≡ ok (set_units everything args.units added).0
  unfolding apply_units
  apply_units-whole added = rw asks.some_units (
      ap (λ s. (set_units s args.units added).1 >>= λ done. ok (set_units s args.units added).0)
        selector_is
      ∙ rw (set_units-everything args.units added) refl)

  module _ (ports : List ExposedPort) where
    abbrev newest : AppDeploymentSpec
    newest = new_deployment args ports stored.spec

    abbrev whole : App
    whole = (set_units everything args.units (add_deployment args ports stored)).0

    added_deployments : (add_deployment args ports stored).spec.deployments ≡ newest ∷ []
    unfolding add_deployment
    added_deployments = rw asks.one_step refl

    abbrev number : ℤ
    number = next_number args.image app.spec.deployments_count app.spec.deployments

    newest_lem :
        with_processes newest (map (with_units args.units) newest.processes)
        ≡ deployed_image args ports (new_count args stored.spec)
    unfolding new_deployment new_count with_version_and_type with_processes
    newest_lem =
        rw
          (
            asks.one_step,
            new_process_specs-units args (previous_processes args app.spec.deployments)
                (sorted_names args.proc_file) asks.every_process,
          )
          refl

    count_lem : new_count args stored.spec ≡ number
    unfolding new_count with_version_and_type
    count_lem = next_number_lem args app.spec app.spec.deployments refl asks.not_two asks.one_step

    -- The app under a number and with one deployment.
    abbrev final : ℤ → AppDeploymentSpec → App
    final n d = record app {
      spec = record app.spec {
        version = args.app_version;
        type =
            if is_empty app.spec.deployments && not (args.volume == "")
            then some stateful_set_app_type
            else app.spec.type;
        deployments_count = n;
        deployments = d ∷ [];
      };
    }

    abbrev renewed : AppDeploymentSpec
    renewed = with_processes newest (map (with_units args.units) newest.processes)

    added_lem :
        with_deployments (add_deployment args ports stored) (renewed ∷ [])
        ≡ final (new_count args stored.spec) renewed
    unfolding add_deployment with_version_and_type
    added_lem = rw asks.one_step refl

    whole-IsDeployed : IsDeployed args ports app whole
    whole-IsDeployed =
        set_units-alone args.units (add_deployment args ports stored) newest added_deployments
        ∙ added_lem
        ∙ ap (final (new_count args stored.spec)) newest_lem
        ∙ ap (λ n. final n (deployed_image args ports n)) count_lem

  -- The request goes the way of an app without a canary.
  update_app_crd_lem : update_app_crd args app ≡ update_primary args stored
  unfolding update_app_crd
  update_app_crd_lem = rw (asks.not_two, asks.inactive) refl

  update_primary_lem :
      (ports : List ExposedPort)
      → parse_ports args.config_ports ≡ ok ports
      → update_primary args stored ≡ elim args.processes [
        | none ↦ ok (whole ports)
        | some ps ↦ apply_processes ps (whole ports)
      ]
  unfolding update_primary
  update_primary_lem ports h = rw (h, apply_units-whole (add_deployment args ports stored)) refl

  -- A request without a canary, with positive units for all processes and all versions, with readable ports
  -- and not from an app.yaml, for an app with at most one deployment and no canary at work, succeeds: the only
  -- deployment is one of the image, with weight 100, the ports, and the processes of the Procfile, each with
  -- its command and the units and volumes of the request; its number, which the app keeps, is one more than the
  -- app's, or the same when the only deployment had that image; the app has the version of the request, a first
  -- deployment with a volume makes it a stateful set, and nothing else has changed.
  pub update_app_crd-IsDeployed :
      (ports : List ExposedPort)
      → parse_ports args.config_ports ≡ ok ports
      → args.processes ≡ none
      → (app' : App) × (update_app_crd args app ≡ ok app') × IsDeployed args ports app app'
  update_app_crd-IsDeployed ports h no_processes = (
    whole ports,
    update_app_crd_lem ∙ update_primary_lem ports h ∙ simp no_processes refl,
    whole-IsDeployed ports,
  )

  -- The processes of an app.yaml are looked up in version 1.
  pub update_app_crd-app_yaml :
      (ports : List ExposedPort) (p : ProcessSpec) (ps : List ProcessSpec) (units : ℤ)
      → parse_ports args.config_ports ≡ ok ports
      → args.processes ≡ some (p ∷ ps)
      → p.units ≡ some units
      → beq_ℤ (pos 1) (new_count args app.spec) ≡ false
      → update_app_crd args app ≡ err deployment_not_found
  update_app_crd-app_yaml ports p ps units h from_yaml u other =
      update_app_crd_lem
      ∙ update_primary_lem ports h
      ∙ simp from_yaml (
          apply_processes-missing (whole ports) (deployed_image args ports (number ports)) p ps
            units (ap (λ a. a.spec.deployments) (whole-IsDeployed ports))
            (ap (beq_ℤ (pos 1)) (
                sym (
                  next_number_lem args app.spec app.spec.deployments refl asks.not_two
                    asks.one_step))
              ∙ other)
            u)
