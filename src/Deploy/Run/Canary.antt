-- ===== src/Deploy/Run/Canary.antt =====
-- A deployment with steps, from the flags of the command to the stored app.
use Prim.Native.Nat.{◌<◌}
use ketch.Base.{
  ℕ, ◌/◌, ◌≤◌, String, false, [], ◌∷◌, Option, none, some, ℤ, pos, add_int, to_uint8, Result, ok,
  err, Error, returned, ◌⊎◌, inl, inr, ◌≡◌, refl, sym, subst, ap, ◌∙◌, arith,
}
use ketch.App.{KetchYamlData, AppDeploymentSpec, App}
use ketch.App.Canary.Run.{InProgress}
use ketch.Chart.Procfile.{Procfile, ImageConfig, make_procfile}
use ketch.Deploy.{or_zero}
use ketch.Deploy.Flags.{ChangeSet}
use ketch.Deploy.Getters.{get_steps, get_step_weight, get_image}
use ketch.Deploy.Files.{get_ketch_yaml, get_volumes}
use ketch.Deploy.Update.{get_updated_app, Write}
use ketch.Deploy.Update.Stored.{get_updated_app-specified}
use ketch.Deploy.Crd.{UpdateRequest, update_app_crd}
use ketch.Deploy.Crd.Start.{AsksForCanary, update_app_crd-InProgress}
use ketch.Deploy.Run.{
  Services, Deployed, get_app, done_unless, build, find_claims, update_with, request_of,
  fetch_and_request, make_request, updated_app, deploy_image, after_update, after_request,
  after_write, write_and_deploy, run,
}

-- A canary of `n` steps is stored, at its start.
pub record IsStarted (n : ℕ) (version : ℤ) (r : Deployed) : Type 0 where
  pub started : App
  pub stored : r.stored ≡ some started
  pub in_progress : InProgress n 0 version started

-- The deployment failed, and the deployments and the canary are as they were.
pub record HasFailed (app : App) (r : Deployed) : Type 0 where
  pub error : Error
  pub failed : r.error ≡ some error
  pub left : App
  pub stored : r.stored ≡ some left
  pub same_deployments : left.spec.deployments ≡ app.spec.deployments
  pub same_canary : left.spec.canary ≡ app.spec.canary

-- What the flags and the app must be: `n` steps, no processes of an app.yaml, an image, and one deployment
-- with all the traffic and no canary at work.
pub record AsksForSteps (n : ℕ) (cs : ChangeSet) (app : App) : Type 0 where
  pub steps : cs.steps ≡ some (pos n)
  pub no_processes : cs.processes ≡ none
  pub image_only : cs.source_path ≡ none
  pub primary : AppDeploymentSpec
  pub deployments : app.spec.deployments ≡ primary ∷ []
  pub weight : primary.routing_settings.weight ≡ 100
  pub inactive : app.spec.canary.active ≡ false

weight_fits : (n : ℕ) → 2 ≤ n → 100 / n < 256
weight_fits n two = omega arith

module _ (services : Services) (cs : ChangeSet) (n : ℕ) (two : 2 ≤ n) (hundred : n ≤ 100)
    (steps : cs.steps ≡ some (pos n)) where
  request_of-HasSteps :
      (image : String) (yaml : Option KetchYamlData) (config : ImageConfig) (procfile : Procfile)
      → let args = request_of services cs image yaml config procfile in
        (args.steps ≡ pos n) × (args.step_weight ≡ 100 / n) × (args.processes ≡ cs.processes)
  unfolding request_of get_steps get_step_weight to_uint8
  request_of-HasSteps image yaml config procfile =
      (ground (arith, steps), ground (arith, steps, weight_fits n two), refl)

  -- What the request asks for.
  abbrev HasSteps : UpdateRequest → Type 0
  HasSteps args =
      (args.steps ≡ pos n) × (args.step_weight ≡ 100 / n) × (args.processes ≡ cs.processes)

  fetch_and_request-HasSteps :
      (app : App) (yaml : Option KetchYamlData) (args : UpdateRequest)
      → fetch_and_request services cs app yaml ≡ ok args
      → HasSteps args
  unfolding fetch_and_request
  fetch_and_request-HasSteps app yaml args h =
      let image = or_zero "" (get_image cs) in
      let (built, _, h1) = returned _ (build services cs app image) h in
      let (config, _, h2) =
        returned _
          (services.image_config (record {
            image_name = image;
            secret_name = app.spec.docker_registry.secret_name;
            secret_namespace = app.spec.namespace;
          }))
          h1 in
      let (procfile, _, h3) = returned _ (make_procfile services.decode config) h2 in
      let (found, _, h4) =
        returned _
          (find_claims services cs app.spec.namespace (or_zero [] (get_volumes services.system cs)))
          h3 in
      let same : request_of services cs (or_zero "" (get_image cs)) yaml config procfile ≡ args =
        cc in
      subst HasSteps same (request_of-HasSteps (or_zero "" (get_image cs)) yaml config procfile)

  make_request-HasSteps :
      (app : App) (args : UpdateRequest) → make_request services cs app ≡ ok args → HasSteps args
  unfolding make_request
  make_request-HasSteps app args h =
      let (yaml, _, h1) = returned _ (get_ketch_yaml services.system cs) h in
      fetch_and_request-HasSteps app yaml args (ground (arith, h1))

module _ (services : Services) (cs : ChangeSet) (n : ℕ) (two : 2 ≤ n) (hundred : n ≤ 100)
    (app : App) (asks : AsksForSteps n cs app) where
  abbrev version : ℤ
  version = add_int app.spec.deployments_count (pos 1)

  -- The deployment ended as it should.
  abbrev IsFine : Deployed → Type 0
  IsFine r = IsStarted n version r ⊎ HasFailed app r

  abbrev IsSame : App → Type 0
  IsSame left =
      (left.spec.deployments ≡ app.spec.deployments)
      × (left.spec.canary ≡ app.spec.canary)
      × (left.spec.deployments_count ≡ app.spec.deployments_count)

  failed :
      (left : App) (e : Error)
      → IsSame left
      → IsFine (record { stored = some left; error = some e })
  failed left e (ds, canary, count) = inr (record {
    error = e;
    failed = refl;
    left = left;
    stored = refl;
    same_deployments = ds;
    same_canary = canary;
  })

  module _ (written : App) (same : IsSame written) where
    update_with-crd :
        (args : UpdateRequest) (app' : App) (failure : Option Error)
        → update_with services cs args (get_app failure (some written)) ≡ ok app'
        → update_app_crd args written ≡ ok app'
    update_with-crd args app' (some e) u = cc
    update_with-crd args app' none u =
        let (app'', is, u1) = returned _ (update_app_crd args written) u in
        let (_, done, u2) = returned _ (done_unless (services.update_error app'')) u1 in is ∙ u2

    updated_app-crd :
        (args : UpdateRequest) (app' : App)
        → updated_app services cs args (some written) ≡ ok app'
        → update_app_crd args written ≡ ok app'
    unfolding updated_app
    updated_app-crd args app' u = update_with-crd args app' services.get_again_error u

    after_update-outcome :
        (args : UpdateRequest) (r : Result App)
        → updated_app services cs args (some written) ≡ r
        → make_request services cs written ≡ ok args
        → IsFine (after_update services cs (some written) r)
    after_update-outcome args (err e) u h = failed written _ same
    after_update-outcome args (ok app') u h =
        let (steps, step_weight, processes) =
          make_request-HasSteps services cs n two hundred asks.steps written args h in
        let asked : AsksForCanary n args written = record {
          primary = asks.primary;
          deployments = same.0 ∙ asks.deployments;
          weight = asks.weight;
          inactive = ap (λ c. c.active) same.1 ∙ asks.inactive;
          steps = steps;
          step_weight = step_weight;
          no_processes = processes ∙ asks.no_processes;
        } in
        inl (record {
          started = app';
          stored = refl;
          in_progress =
              subst (λ count. InProgress n 0 (add_int count (pos 1)) app') same.2
                (update_app_crd-InProgress n args written app' two asked
                  (updated_app-crd args app' u));
        })

    after_request-outcome :
        (r : Result UpdateRequest)
        → make_request services cs written ≡ r
        → IsFine (after_request services cs (some written) r)
    after_request-outcome (err e) h = failed written e same
    after_request-outcome (ok args) h = after_update-outcome args _ refl h

    after_write-outcome :
        (failure : Option Error) → IsFine (after_write services cs (some app) written failure)
    unfolding deploy_image
    after_write-outcome (some e) = failed app e (refl, refl, refl)
    after_write-outcome none = after_request-outcome _ refl

  write_and_deploy-outcome :
      (r : Result Write)
      → get_updated_app services.system cs (ok app) ≡ r
      → IsFine (write_and_deploy services cs (some app) r)
  write_and_deploy-outcome (err e) h = failed app e (refl, refl, refl)
  write_and_deploy-outcome (ok w) h =
      let (envs, after, w_is, accepted) =
        get_updated_app-specified services.system cs asks.image_only app w h in
      subst (λ w. IsFine (write_and_deploy services cs (some app) (ok w))) (sym w_is)
        (after_write-outcome _ (refl, refl, refl) _)

  -- When the client finds the app, a deployment from an image with `n` steps either stores the canary of `n`
  -- steps at its start, even if the wait for it fails, or fails and leaves the deployments and the
  -- canary as they were.
  pub run-IsStarted :
      services.get_error ≡ none
      → IsStarted n version (run services cs (some app))
        ⊎ HasFailed app (run services cs (some app))
  unfolding run
  run-IsStarted found = rw found (write_and_deploy-outcome _ refl)
