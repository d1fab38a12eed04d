-- ===== src/Controllers/Canary/Timeout.antt =====
-- What a reconcile makes of a canary in progress.
use ketch.Base.{
  ℕ, suc, ◌≤◌, ◌<◌, beq, All, ◌++◌, Option, none, wrap, Bool, true, false, List, [], ◌∷◌, some, ℤ,
  leb_ℤ, Dict, ok, Error, ◌≡◌, refl, sym, ◌∙◌, subst, arith, ◌⊎◌, inl, inr, Bool-cases,
  Option-cases, Result-cases,
}
use ketch.App.{AppDeploymentSpec, App}
use ketch.App.Scaling.{with_weight}
use ketch.App.Canary.{CanaryResult, do_canary, do_rollback, with_canary}
use ketch.App.Canary.Step.{do_canary-app}
use ketch.App.Canary.Run.{InProgress, IsFinished, InProgress-step, InProgress-last}
use ketch.Controllers.Pods.{check_pod_status, timeout_expired, hpa_target_map}
use ketch.Controllers.Canary.{
  Cluster, Block, with_canary_deployment, write_step, canary_block, step_canary, not_ready,
}

-- The old deployment has all the traffic again, and the canary is over.
pub record IsRolledBack (app app' : App) : Type 0 where
  pub source : AppDeploymentSpec
  pub dest : AppDeploymentSpec
  pub deployments : app.spec.deployments ≡ source ∷ dest ∷ []
  pub rolled_back :
      app'
      ≡ with_canary app
          (record app.spec.canary { active = false })
          (with_weight 100 source ∷ with_weight 0 dest ∷ [])

-- What is stored of the app of a block: nothing when the update fails, whose error is returned then, and
-- else the app, by the first update and by all that follow. The last app that was written stands first.
abbrev pub IsStored : Option Error → Block → Type 0
IsStored (some x) block =
    (block.written ≡ []) × (block.error ≡ some (wrap "failed to update app crd" x))
IsStored none block =
    (more : List App) × (block.written ≡ more ++ (block.app ∷ []))
    × All (λ written. written ≡ block.app) more

-- The canary waits, makes its next step, makes its last step or is rolled back.
abbrev pub Progress : ℕ → ℕ → ℤ → App → App → Type 0
Progress n k version app app' =
    (app' ≡ app)
    ⊎ (((suc k < n) × InProgress n (suc k) version app')
        ⊎ (((suc k ≡ n) × IsFinished n version app') ⊎ IsRolledBack app app'))

module _ (cluster : Cluster) where
  write_step-app :
      (written : List App) (r : CanaryResult) → (write_step cluster written r).app ≡ r.app
  unfolding write_step
  write_step-app written r = elim (Option-cases r.error) [
    | inr (e, h) ↦ rw (h, write_step) refl
    | inl h ↦ elim (Option-cases (cluster.update r.app)) [
      | inr (e, k) ↦ ground (arith, h, k)
      | inl k ↦ ground (arith, h, k)
    ]
  ]

  -- The block leaves what it was given, or what `DoCanary` makes of it.
  step_canary-app :
      (written : List App) (app : App)
      → ((step_canary cluster written app).app ≡ app)
        ⊎ ((disabled : Dict Bool) × ((step_canary cluster written app).app
              ≡ (do_canary app cluster.now disabled).app))
  unfolding step_canary
  step_canary-app written app = elim (Result-cases cluster.hpas) [
    | inr (e, h) ↦ inl (rw (h, step_canary) refl)
    | inl (hpas, h) ↦ inr (
      hpa_target_map app hpas,
      rw (h, step_canary)
          (write_step-app written (do_canary app cluster.now (hpa_target_map app hpas))),
    )
  ]

  module _ (n k : ℕ) (version : ℤ) (app : App) (two : 2 ≤ n) (hundred : n ≤ 100) (le : suc k ≤ n)
      (p : InProgress n k version app) where
    do_canary-Progress :
        (disabled : Dict Bool) → Progress n k version app (do_canary app cluster.now disabled).app
    do_canary-Progress disabled = elim (Bool-cases (leb_ℤ p.scheduled cluster.now)) [
      | inr early ↦ inl (
          ground
            (arith, do_canary-app app cluster.now disabled, p.is_scheduled, p.deployments, early))
      | inl due ↦ elim (Bool-cases (beq (suc k) n)) [
        | inl last ↦
            (let e : suc k ≡ n = ground (arith, last) in
              inr (
                inr (
                  inl (
                    e,
                    InProgress-last n k app cluster.now disabled version p due two hundred le e,
                  ))))
        | inr more ↦
            (let lt : suc k < n = ground (arith, more) in
              inr (
                inl (
                  lt,
                  InProgress-step n k app cluster.now disabled version p due two hundred le lt,
                )))
      ]
    ]

    step_canary-Progress : Progress n k version app (step_canary cluster [] app).app
    step_canary-Progress = elim (step_canary-app [] app) [
      | inl same ↦ inl same
      | inr (disabled, stepped) ↦
          subst (Progress n k version app) (sym stepped) (do_canary-Progress disabled)
    ]

    abbrev pub back : App
    back =
        with_canary app (record app.spec.canary { active = false })
          (with_weight 100 p.source ∷ with_weight 0 p.dest ∷ [])

    pub do_rollback-back : do_rollback app ≡ ok back
    unfolding do_rollback
    do_rollback-back = ground (arith, p.deployments)

    -- A canary that is over does not step.
    do_canary-back : (disabled : Dict Bool) → (do_canary back cluster.now disabled).app ≡ back
    do_canary-back disabled = ground (arith, do_canary-app back cluster.now disabled)

    IsRolledBack-back : (app' : App) → app' ≡ back → IsRolledBack app app'
    IsRolledBack-back app' e = record {
      source = p.source;
      dest = p.dest;
      deployments = p.deployments;
      rolled_back = e;
    }

    pub step_canary-back : (step_canary cluster (back ∷ []) back).app ≡ back
    step_canary-back = elim (step_canary-app (back ∷ []) back) [
      | inl same ↦ same
      | inr (disabled, stepped) ↦ stepped ∙ do_canary-back disabled
    ]

    not_ready-back :
        (e : Error)
        → timeout_expired app.spec.canary.started cluster.now ≡ ok true
        → (not_ready cluster app e).app ≡ back
    unfolding not_ready
    not_ready-back e h = elim (Option-cases (cluster.update back)) [
      | inr (x, u) ↦ rw (h, not_ready, do_rollback-back, u) refl
      | inl u ↦ rw (h, not_ready, do_rollback-back, u) step_canary-back
    ]

    not_ready-Progress : (e : Error) → Progress n k version app (not_ready cluster app e).app
    unfolding not_ready
    not_ready-Progress e =
        elim (Result-cases (timeout_expired app.spec.canary.started cluster.now)) [
          | inr (x, h) ↦ inl (rw (h, not_ready) refl)
          | inl (true, h) ↦ inr (inr (inr (IsRolledBack-back _ (not_ready-back e h))))
          | inl (false, h) ↦ inl (rw (h, not_ready) refl)
        ]

    pub canary_block_lem : canary_block cluster app ≡ with_canary_deployment cluster app p.dest
    unfolding canary_block
    canary_block_lem = ground (arith, p.deployments)

    with_canary_deployment-Progress :
        Progress n k version app (with_canary_deployment cluster app p.dest).app
    unfolding with_canary_deployment
    with_canary_deployment-Progress =
        elim (Option-cases
          (check_pod_status app.name p.dest.version (cluster.pods app.name p.dest.version)).1) [
            | inl h ↦ rw (h, with_canary_deployment) step_canary-Progress
            | inr (e, h) ↦ rw (h, with_canary_deployment) (not_ready-Progress e)
          ]

    -- A reconcile of a canary in progress.
    pub canary_block-Progress : Progress n k version app (canary_block cluster app).app
    canary_block-Progress =
        subst (λ b. Progress n k version app b.app) (sym canary_block_lem)
          with_canary_deployment-Progress

    step_canary-IsStored :
        cluster.update back ≡ none → IsStored none (step_canary cluster (back ∷ []) back)
    unfolding step_canary write_step do_canary
    step_canary-IsStored u = elim (Result-cases cluster.hpas) [
      | inr (x, h) ↦ rw (step_canary, h) ([], refl, tt)
      | inl (hpas, h) ↦ rw (step_canary, h, write_step, u) (back ∷ [], refl, (refl, tt))
    ]

    not_ready-IsStored :
        (e : Error)
        → timeout_expired app.spec.canary.started cluster.now ≡ ok true
        → IsStored (cluster.update back) (not_ready cluster app e)
    unfolding not_ready
    not_ready-IsStored e h = elim (Option-cases (cluster.update back)) [
      | inr (x, u) ↦ rw (h, not_ready, do_rollback-back, u) (refl, refl)
      | inl u ↦ rw (h, not_ready, do_rollback-back, u) (step_canary-IsStored u)
    ]

    -- When the pods of a canary in progress are not ready more than ten minutes after its start, a reconcile
    -- rolls it back. When the update that stores this fails, nothing is stored and its error is returned; else
    -- the app that is rolled back is stored, and no other.
    pub canary_block-IsRolledBack :
        (e : Error)
        → (check_pod_status app.name p.dest.version (cluster.pods app.name p.dest.version)).1
          ≡ some e
        → timeout_expired app.spec.canary.started cluster.now ≡ ok true
        → let block = canary_block cluster app in
          IsRolledBack app block.app × IsStored (cluster.update block.app) block
    unfolding with_canary_deployment
    canary_block-IsRolledBack e waiting late =
        let same : canary_block cluster app ≡ not_ready cluster app e =
          canary_block_lem ∙ rw (waiting, with_canary_deployment) refl in
        subst (λ b. IsRolledBack app b.app × IsStored (cluster.update b.app) b) (sym same)
          (
            IsRolledBack-back _ (not_ready-back e late),
            rw (not_ready-back e late) (not_ready-IsStored e late),
          )
