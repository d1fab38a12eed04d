-- ===== src/Controllers/Reconcile/Refinement.antt =====
-- What `reconcile` of internal/controllers/app_controller.go stores: a canary that a deployment has started
-- refines the abstract canary, whatever its reconciles meet.
use ketch.Base.{
  ℕ, ℤ, ◌≤◌, List, [], ◌∷◌, length, none, some, pos, add_int, Bool-cases, Option-cases,
  Result-cases, ◌⊎◌, inl, inr, ◌≡◌, refl, sym, subst, arith, ◌==◌,
}
use ketch.App.{AppDeploymentSpec, ProcessSpec, App}
use ketch.App.Labels.{update_app_labels_for_ingress}
use ketch.App.Ports.{exposed_ports}
use ketch.Chart.Application.{ApplicationChart, new_chart, new_chart_config, with_exposed_ports}
use ketch.Deploy.Flags.{ChangeSet}
use ketch.Deploy.Run.{Services, run}
use ketch.Deploy.Run.Canary.{AsksForSteps, run-IsStarted}
use ketch.Controllers.Cancel.{CancelMap}
use ketch.Controllers.Workload.{Workload}
use ketch.Controllers.Rollout.{Launch, watch_deploy_events}
use ketch.Controllers.Canary.{canary_block}
use ketch.Controllers.Canary.Refinement.{
  Phase, progressing, Step, Steps, none_left, wait, step, Shows, stored, reconcile_canary, Refines,
  reconcile_canary-Refines,
}
use ketch.Controllers.Reconcile.{
  World, Reconciled, idle, ingress_config_map_name, last_of, workload_name, watch_processes,
  watch_app, install, of_block, canary_and_install, reconcile,
}

module _ (world : World) where
  -- The launch of a process's watch.
  abbrev launch_of :
      AppDeploymentSpec → ProcessSpec → Reconciled → Workload → Launch world.error_text
  launch_of d p r wl =
      watch_deploy_events world.error_text r.app p.name wl (world.watch wl.name)
        (world.waits wl.name) (world.cancel wl.name) r.cancel_map

  watch_processes-written :
      (d : AppDeploymentSpec) (ps : List ProcessSpec) (r : Reconciled)
      → (watch_processes world d ps r).written ≡ r.written
  unfolding watch_processes
  watch_processes-written d [] r = refl
  watch_processes-written d (p ∷ ps) r = elim (Option-cases world.kubernetes) [
    | inr (e, h) ↦ rw (watch_processes, h) refl
    | inl h ↦ elim (Result-cases (world.workload (workload_name world r.app d p))) [
      | inr (e, k) ↦ rw (watch_processes, h, k) refl
      | inl (wl, k) ↦ elim (Result-cases (launch_of d p r wl).result) [
        | inr (e, l) ↦ rw (watch_processes, h, k, l) refl
        | inl (started, l) ↦ rw (watch_processes, h, k, l) (watch_processes-written d ps _)
      ]
    ]
  ]

  watch_app-written : (r : Reconciled) → (watch_app world r).written ≡ r.written
  unfolding watch_app
  watch_app-written r = elim (Option-cases (last_of r.app.spec.deployments)) [
    | inl empty ↦ rw (watch_app, empty) refl
    | inr (d, h) ↦ elim (Bool-cases r.app.spec.canary.active) [
      | inl active ↦ ground (arith, h, active)
      | inr over ↦ ground (arith, h, over, watch_processes-written d d.processes r)
    ]
  ]

  install-written :
      (chart : ApplicationChart) (r : Reconciled) → (install world chart r).written ≡ r.written
  unfolding install
  install-written chart r =
      elim (Option-cases (world.update_chart chart (new_chart_config world.generation r.app))) [
        | inr (e, h) ↦ rw (install, h) refl
        | inl h ↦
            rw (install, h)
              (watch_app-written (record r {
                installed = some (chart, new_chart_config world.generation r.app);
                app = update_app_labels_for_ingress r.app;
              }))
      ]

  canary_and_install-written :
      (chart : ApplicationChart) (cm : CancelMap) (app : App)
      → stored app (canary_and_install world chart cm app).written
        ≡ reconcile_canary app world.cluster
  unfolding canary_and_install reconcile_canary
  canary_and_install-written chart cm app = elim (Bool-cases app.spec.canary.active) [
    | inr over ↦ ground (arith, over, install-written chart (idle cm app))
    | inl active ↦
        ground (
          arith,
          active,
          install-written chart (of_block world cm (canary_block world.cluster app)),
        )
  ]

  -- The stored app is left as it is, or is what the canary block makes it.
  reconcile-written :
      (cm : CancelMap) (app : App)
      → (stored app (reconcile world cm app).written ≡ app)
        ⊎ (stored app (reconcile world cm app).written ≡ reconcile_canary app world.cluster)
  unfolding reconcile
  reconcile-written cm app = elim (Bool-cases (app.spec.namespace == "")) [
    | inl nowhere ↦ inl (rw (reconcile, nowhere) refl)
    | inr there ↦
        elim (Result-cases
          (world.templates (ingress_config_map_name app.spec.ingress.controller.ingress_type))) [
            | inr (e, h) ↦ inl (rw (reconcile, there, h) refl)
            | inl (tpls, h) ↦
                elim (Result-cases (
                  new_chart
                    (record {
                      exposed_ports = with_exposed_ports (exposed_ports app);
                      templates = tpls;
                    })
                    app)) [
                      | inr (e, k) ↦ inl (rw (reconcile, there, h, k) refl)
                      | inl (chart, k) ↦ elim (Option-cases (world.helm app.spec.namespace)) [
                        | inr (e, l) ↦ inl (rw (reconcile, there, h, k, l) refl)
                        | inl l ↦ inr (
                            rw (reconcile, there, h, k, l)
                              (canary_and_install-written chart cm app))
                      ]
                    ]
          ]
  ]

-- The stored app after reconciles, each in its world and with its cancel map.
unfoldable pub reconciles : App → List (World × CancelMap) → App
unfolding reconcile
reconciles app [] = app
reconciles app ((world, cm) ∷ worlds) =
    reconciles (stored app (reconcile world cm app).written) worlds

module _ (n : ℕ) (version : ℤ) (two : 2 ≤ n) (hundred : n ≤ 100) where
  reconcile-Refines :
      (world : World) (cm : CancelMap) (before : Phase) (app : App)
      → Shows n version app before
      → (after : Phase) × (after ≡ before ⊎ Step n before after)
        × Shows n version (stored app (reconcile world cm app).written) after
  reconcile-Refines world cm before app h = elim (reconcile-written world cm app) [
    | inl same ↦ (before, inl refl, subst (λ a. Shows n version a before) (sym same) h)
    | inr by_block ↦
        (let (after, how, shows) =
            reconcile_canary-Refines n version two hundred before app world.cluster h in
          (after, how, subst (λ a. Shows n version a after) (sym by_block) shows))
  ]

  reconciles-Refines :
      (worlds : List (World × CancelMap)) (before : Phase) (app : App)
      → Shows n version app before
      → Refines n version two hundred (length worlds) before (reconciles app worlds)
  unfolding reconciles
  reconciles-Refines [] before app h = (before, none_left before, h)
  reconciles-Refines ((world, cm) ∷ worlds) before app h =
      let (mid, how, shows) = reconcile-Refines world cm before app h in
      let (last, steps, at_last) = reconciles-Refines worlds mid _ shows in
      elim how [
        | inl same ↦ (last, wait (subst (λ p. Steps n (length worlds) p last) same steps), at_last)
        | inr one ↦ (last, step one steps, at_last)
      ]

-- After a deployment from an image with `n` steps, from 2 to 100, and without the processes of an app.yaml has succeeded for an app that the client finds
-- with one deployment, which has all the traffic, and no canary at work, an app is stored. However often
-- it is reconciled, and whatever the reconciles meet, it shows a phase that the abstract canary reaches
-- with at most one step for each reconcile: some steps made with the weights of that many, or finished
-- with one deployment and all the traffic, or rolled back to weights 100 and 0.
pub reconciles-run :
    (services : Services) (cs : ChangeSet) (n : ℕ) (two : 2 ≤ n) (hundred : n ≤ 100) (app : App)
    (worlds : List (World × CancelMap))
    → AsksForSteps n cs app
    → services.get_error ≡ none
    → (run services cs (some app)).error ≡ none
    → (started : App) × ((run services cs (some app)).stored ≡ some started)
      × Refines n
          (add_int app.spec.deployments_count (pos 1))
          two
          hundred
          (length worlds)
          (progressing 0)
          (reconciles started worlds)
reconciles-run services cs n two hundred app worlds asks found succeeded =
    elim (run-IsStarted services cs n two hundred app asks found) [
      | inr failed ↦ absurd (ground (arith, succeeded, failed.failed))
      | inl canary ↦ (
        canary.started,
        canary.stored,
        reconciles-Refines n _ two hundred worlds (progressing 0) canary.started
            (canary.in_progress, omega arith),
      )
    ]
