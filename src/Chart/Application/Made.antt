-- ===== src/Chart/Application/Made.antt =====
-- What the chart of an app says of its deployments.
use mathlib.Core.List.{append-nil, append_assoc}
use ketch.Base.{
  String, Bool, true, List, [], ◌∷◌, ◌++◌, map, none, ok, returned, ltb, ◌==◌, ◌||◌, any, Pointwise,
  ◌≡◌, refl, ap, sym, ◌∙◌, subst, arith, inl, inr, Option-cases, eq_iff,
}
use ketch.App.{ProcessSpec, AppDeploymentSpec, AppSpec, App}
use ketch.Chart.Procfile.{Procfile, procfile_from_processes, is_routable, routable_process}
use ketch.Chart.Procfile.Routable.{routable_process-any}
use ketch.Chart.Configurator.{new_configurator}
use ketch.Chart.Ingress.{new_ingress}
use ketch.Chart.Application.{
  Deployment, Service, Options, ApplicationChart, default_application_port, ports_at,
  image_pull_secrets, add_deployment, add_deployments, is_app_accessible, new_chart,
}
use ketch.Chart.Application.Service.{
  is_some, TakesTraffic, or_else, or_else_assoc, or_else-none, gateway_of, gateway, AreMade,
  add_processes-Added, ok-inj,
}

any-routable :
    (name : String) (ps : List ProcessSpec)
    → any (λ n. n == name) (map (λ p. p.name) ps) ≡ true
    → any (λ p. name == p.name) ps ≡ true
any-routable name [] h = h
any-routable name (p ∷ ps) h =
    ground (arith, h, any-routable name ps, eq_iff p.name name, eq_iff name p.name)

-- One of the processes is the routable one.
procfile-routable :
    (ps : List ProcessSpec) {procfile : Procfile}
    → procfile_from_processes ps ≡ ok procfile
    → any (λ p. is_routable procfile p.name) ps ≡ true
unfolding procfile_from_processes is_routable
procfile-routable ps {procfile} h = any-routable procfile.routable_process_name ps (
    routable_process-any (map (λ p. p.name) ps) procfile.routable_process_name
      (elim (Option-cases (routable_process (map (λ p. p.name) ps))) [
        | inl missing ↦ ground (arith, h, missing)
        | inr (name, found) ↦ found ∙ ground (arith, h, found)
      ]))

-- The chart's deployment for one of the app.
pub record IsRendered (spec : AppSpec) (options : Options) (d : AppDeploymentSpec) (d' : Deployment)
    : Type 0 where
  pub image : d'.image ≡ d.image
  pub version : d'.version ≡ d.version
  pub labels : d'.labels ≡ d.labels
  pub routing_settings : d'.routing_settings ≡ d.routing_settings
  pub secrets : d'.image_pull_secrets ≡ image_pull_secrets d.image_pull_secrets spec.docker_registry
  pub procfile : Procfile
  pub is_procfile : procfile_from_processes d.processes ≡ ok procfile
  pub processes :
      AreMade spec d.version procfile
        (new_configurator d.ketch_yaml procfile
          (ports_at d.version options.exposed_ports)
          default_application_port)
        d.processes
        d'.processes

-- Whether a deployment of the app has traffic.
abbrev pub has_traffic : AppDeploymentSpec → Bool
has_traffic d = ltb 0 d.routing_settings.weight

module _ (spec : AppSpec) (options : Options) where
  add_deployment-IsRendered :
      (d : AppDeploymentSpec) (service : Service) {r : Deployment × Service}
      → add_deployment spec options d service ≡ ok r
      → IsRendered spec options d r.0
        × (TakesTraffic service → TakesTraffic r.1)
        × (r.1 ≡ or_else (gateway_of (record r.0 { processes = [] }) r.0.processes) service)
        × (is_some r.1 ≡ (is_some service || has_traffic d))
  unfolding add_deployment
  add_deployment-IsRendered d service h =
      let (procfile, p, h1) = returned _ (procfile_from_processes d.processes) h in
      let c =
        new_configurator d.ketch_yaml procfile (ports_at d.version options.exposed_ports)
          default_application_port in
      let added = add_processes-Added spec procfile c d.processes _ service h1 in
      (
        record {
          image = ap (λ d. d.image) added.deployment;
          version = ap (λ d. d.version) added.deployment;
          labels = ap (λ d. d.labels) added.deployment;
          routing_settings = ap (λ d. d.routing_settings) added.deployment;
          secrets = ap (λ d. d.image_pull_secrets) added.deployment;
          procfile = procfile;
          is_procfile = p;
          processes =
              subst (AreMade spec d.version procfile c d.processes)
                (sym (ap (λ d. d.processes) added.deployment)) added.are_made;
        },
        added.takes,
        added.service_is
            ∙ ap
                (λ (x : Deployment).
                  or_else (gateway_of (record x { processes = [] }) x.processes) service)
                (sym added.deployment),
        added.found ∙ ground (arith, procfile-routable d.processes p),
      )

  abbrev Made :
      List AppDeploymentSpec → List Deployment → Service → List Deployment × Service → Type 0
  Made ds made service r =
      (new : List Deployment) × (r.0 ≡ made ++ new)
      × Pointwise (IsRendered spec options) ds new
      × (TakesTraffic service → TakesTraffic r.1)
      × (r.1 ≡ or_else (gateway new) service)
      × (is_some r.1 ≡ (is_some service || any has_traffic ds))

  add_deployments-Made :
      (ds : List AppDeploymentSpec) (made : List Deployment) (service : Service)
      {r : List Deployment × Service}
      → add_deployments spec options ds made service ≡ ok r
      → Made ds made service r
  unfolding add_deployments
  add_deployments-Made [] made service h =
      let e = ok-inj h in
      (
        [],
        ap (λ r. r.0) (sym e) ∙ sym (append-nil made),
        tt,
        λ t. subst (λ r. TakesTraffic r.1) e t,
        ap (λ r. r.1) (sym e),
        ap (λ r. is_some r.1) (sym e) ∙ ground arith,
      )
  add_deployments-Made (d ∷ ds) made service h =
      let (first, p, h1) = returned _ (add_deployment spec options d service) h in
      let (is_rendered, takes, first_is, found) = add_deployment-IsRendered d service p in
      let (new, e, rendered, takes_rest, last_is, found_rest) =
        add_deployments-Made ds (made ++ (first.0 ∷ [])) first.1 h1 in
      (
        first.0 ∷ new,
        e ∙ append_assoc made (first.0 ∷ []) new,
        (is_rendered, rendered),
        λ t. takes_rest (takes t),
        last_is ∙ ap (or_else (gateway new)) first_is ∙ sym (or_else_assoc (gateway new) _ service),
        found_rest ∙ ground (arith, found),
      )

-- When New succeeds, the chart has the app's deployments in their order, with their weights, and each process
-- of a deployment with the command, the units, the variables, the volumes, the resources, the security context
-- and the hook that the app says, with the deployment's ports and probes, and with the labels and annotations
-- of the app; it has the ingress of newIngress. The gateway has a service exactly when a deployment has
-- traffic: it is the last routable process of the last of these deployments, and it has an open port.
pub new_chart-IsRendered :
    (options : Options) (app : App) (chart : ApplicationChart)
    → new_chart options app ≡ ok chart
    → Pointwise (IsRendered app.spec options) app.spec.deployments chart.app.deployments
      × (chart.app.service ≡ gateway chart.app.deployments)
      × TakesTraffic chart.app.service
      × (is_some chart.app.service ≡ any has_traffic app.spec.deployments)
      × (new_ingress app app.spec.ingress.controller ≡ ok chart.app.ingress)
      × (chart.app.is_accessible ≡ is_app_accessible chart.app.ingress chart.app.deployments)
unfolding new_chart
new_chart-IsRendered options app chart h =
    let (ingress, i, h1) = returned _ (new_ingress app app.spec.ingress.controller) h in
    let (r, a, h2) =
      returned _ (add_deployments app.spec options app.spec.deployments [] none) h1 in
    let (new, e, rendered, takes, last_is, found) =
      add_deployments-Made app.spec options app.spec.deployments [] none a in
    let same = ok-inj h2 in
    (
      subst (Pointwise (IsRendered app.spec options) app.spec.deployments)
          (sym e ∙ ap (λ c. c.app.deployments) same) rendered,
      subst (λ c. c.app.service ≡ gateway c.app.deployments) same
          (last_is ∙ or_else-none (gateway new) ∙ ap gateway (sym e)),
      subst (λ c. TakesTraffic c.app.service) same (takes tt),
      ap (λ c. is_some c.app.service) (sym same) ∙ found,
      i ∙ ap (λ c. ok c.app.ingress) same,
      subst (λ c. c.app.is_accessible ≡ is_app_accessible c.app.ingress c.app.deployments) same
          refl,
    )
