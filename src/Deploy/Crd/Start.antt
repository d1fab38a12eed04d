-- ===== src/Deploy/Crd/Start.antt =====
-- A deployment with steps puts the app at the start of a canary.
use ketch.Base.{
  ℕ, ◌/◌, ◌≤◌, true, false, List, [], ◌∷◌, none, pos, add_int, ok, returned, ◌≡◌, refl, ap, subst,
  ◌∙◌, Pointwise, arith,
}
use ketch.App.{ExposedPort, AppDeploymentSpec, App}
use ketch.App.Units.{with_processes}
use ketch.App.Scaling.Frame.{KeepsRest}
use ketch.App.Canary.Run.{InProgress}
use ketch.Deploy.Crd.{
  UpdateRequest, is_canary, new_count, new_deployment, new_canary, add_deployment,
  with_version_and_type, apply_units, parse_ports, update_primary, update_app_crd,
}
use ketch.Deploy.Crd.Keeps.{apply_units-AppKeeps}

-- The request is for a canary of `n` steps beside the primary deployment of the app, which has all
-- the traffic; it does not come from an app.yaml.
pub record AsksForCanary (n : ℕ) (args : UpdateRequest) (app : App) : Type 0 where
  pub primary : AppDeploymentSpec
  pub deployments : app.spec.deployments ≡ primary ∷ []
  pub weight : primary.routing_settings.weight ≡ 100
  pub inactive : app.spec.canary.active ≡ false
  pub steps : args.steps ≡ pos n
  pub step_weight : args.step_weight ≡ 100 / n
  pub no_processes : args.processes ≡ none

pair_of :
    (a b : AppDeploymentSpec) (ds : List AppDeploymentSpec)
    → Pointwise KeepsRest (a ∷ b ∷ []) ds
    → (a' b' : AppDeploymentSpec) × (ds ≡ a' ∷ b' ∷ []) × KeepsRest a a' × KeepsRest b b'
pair_of a b [] h = elim h.0 [ ]
pair_of a b (a' ∷ []) h = elim h.1.0 [ ]
pair_of a b (a' ∷ b' ∷ []) h = (a', b', refl, h.0, h.1.0)
pair_of a b (a' ∷ b' ∷ c' ∷ ds) h = elim h.1.1.0 [ ]

KeepsRest-fields :
    (d d' : AppDeploymentSpec)
    → KeepsRest d d'
    → (d'.version ≡ d.version) × (d'.routing_settings ≡ d.routing_settings)
unfolding with_processes
KeepsRest-fields d d' h = (ap (λ x. x.version) h, ap (λ x. x.routing_settings) h)

module _ (n : ℕ) (args : UpdateRequest) (app app' : App) (two : 2 ≤ n)
    (asks : AsksForCanary n args app) where
  abbrev stored : App
  stored = with_version_and_type args app

  is_canary_lem : is_canary args ≡ true
  is_canary_lem = ground (arith, asks.steps)

  -- What is left of a successful request.
  added :
      update_app_crd args app ≡ ok app'
      → (ports : List ExposedPort) × (apply_units args (add_deployment args ports stored) ≡ ok app')
  unfolding update_app_crd update_primary
  added h =
      let primary_ok : update_primary args stored ≡ ok app' =
        ground (arith, h, asks.deployments, asks.inactive) in
      let (ports, p, h1) = returned _ (parse_ports args.config_ports) primary_ok in
      let (app'', q, h2) = returned _ (apply_units args (add_deployment args ports stored)) h1 in
      (ports, q ∙ (ground (arith, h2, asks.no_processes)))

  module _ (ports : List ExposedPort) where
    abbrev newest : AppDeploymentSpec
    newest = new_deployment args ports stored.spec

    -- The new deployment has no traffic and the next number.
    newest_fields :
        (newest.version ≡ add_int app.spec.deployments_count (pos 1))
        × (newest.routing_settings.weight ≡ 0)
    unfolding new_deployment new_count with_version_and_type
    newest_fields = (ground (arith, is_canary_lem), ground (arith, is_canary_lem))

    added_fields :
        ((add_deployment args ports stored).spec.deployments ≡ asks.primary ∷ newest ∷ [])
        × ((add_deployment args ports stored).spec.canary ≡ new_canary args)
    unfolding add_deployment with_version_and_type
    added_fields = (rw (is_canary_lem, asks.deployments) refl, rw is_canary_lem refl)

  -- The canary that `canary_run` starts from.
  pub update_app_crd-InProgress :
      update_app_crd args app ≡ ok app'
      → InProgress n 0 (add_int app.spec.deployments_count (pos 1)) app'
  unfolding new_canary
  update_app_crd-InProgress h =
      let (ports, e) = added h in
      let keeps = apply_units-AppKeeps args (add_deployment args ports stored) app' e in
      let canary_is : app'.spec.canary ≡ new_canary args =
        ap (λ a. a.spec.canary) keeps.rest ∙ (added_fields ports).1 in
      let (source, dest, left, s, d) = pair_of asks.primary (newest ports) app'.spec.deployments (
        subst (λ ds. Pointwise KeepsRest ds app'.spec.deployments) (added_fields ports).0
          keeps.deployments) in
      let source_fields = KeepsRest-fields asks.primary source s in
      let dest_fields = KeepsRest-fields (newest ports) dest d in
      record {
        active = ap (λ c. c.active) canary_is;
        steps = ap (λ c. c.steps) canary_is ∙ asks.steps;
        step_weight = ap (λ c. c.step_weight) canary_is ∙ asks.step_weight;
        current_step = ap (λ c. c.current_step) canary_is;
        scheduled = args.next_scheduled_time;
        is_scheduled = ap (λ c. c.next_scheduled_time) canary_is;
        source = source;
        dest = dest;
        deployments = left;
        source_weight = omega (arith, ap (λ r. r.weight) source_fields.1, asks.weight);
        dest_version = dest_fields.0 ∙ (newest_fields ports).0;
        dest_weight = ap (λ r. r.weight) dest_fields.1 ∙ (newest_fields ports).1 ∙ omega arith;
      }
