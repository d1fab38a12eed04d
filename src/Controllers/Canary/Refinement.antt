-- ===== src/Controllers/Canary/Refinement.antt =====
-- A reconcile of a canary makes at most one step of an abstract canary.
use ketch.Base.{
  ℕ, zero, suc, ◌≤◌, ◌<◌, true, false, List, [], ◌∷◌, ℤ, Error, ◌≡◌, refl, ap, sym, ◌∙◌, subst, ◌⊎◌,
  inl, inr, if◌then◌else◌, Option-cases, Result-cases,
}
use ketch.App.{AppDeploymentSpec, App}
use ketch.App.Scaling.{with_weight}
use ketch.App.Canary.{CanaryResult, do_canary}
use ketch.App.Canary.Run.{InProgress, IsFinished}
use ketch.Controllers.Pods.{check_pod_status, timeout_expired, hpa_target_map}
use ketch.Controllers.Canary.{
  Cluster, Block, with_canary_deployment, write_step, canary_block, step_canary, not_ready,
}
use ketch.Controllers.Canary.Timeout.{
  IsRolledBack, Progress, canary_block-Progress, back, do_rollback-back, step_canary-back,
  canary_block_lem,
}

-- A canary as its user sees it: so many steps are made, it is over, or it was rolled back.
pub data Phase : Type 0 where
  progressing : ℕ → Phase
  finished rolled_back : Phase

-- The steps of a canary of `n` steps, the last of which finishes it.
pub data Step (n : ℕ) : Phase → Phase → Type 0 where
  advance : (k : ℕ) → suc k < n → Step n (progressing k) (progressing (suc k))
  finish : (k : ℕ) → suc k ≡ n → Step n (progressing k) finished
  roll_back : (k : ℕ) → Step n (progressing k) rolled_back

-- At most as many steps as there are reconciles.
pub data Steps (n : ℕ) : ℕ → Phase → Phase → Type 0 where
  none_left : (p : Phase) → Steps n zero p p
  wait : {m : ℕ} {p q : Phase} → Steps n m p q → Steps n (suc m) p q
  step : {m : ℕ} {p q r : Phase} → Step n p q → Steps n m q r → Steps n (suc m) p r

-- The old deployment has all the traffic, and the canary is over.
pub record IsBack (app : App) : Type 0 where
  pub inactive : app.spec.canary.active ≡ false
  pub source : AppDeploymentSpec
  pub dest : AppDeploymentSpec
  pub deployments : app.spec.deployments ≡ source ∷ dest ∷ []
  pub source_weight : source.routing_settings.weight ≡ 100
  pub dest_weight : dest.routing_settings.weight ≡ 0

-- What a phase says of the app.
abbrev pub Shows : ℕ → ℤ → App → Phase → Type 0
Shows n version app (progressing k) = InProgress n k version app × (suc k ≤ n)
Shows n version app finished = IsFinished n version app
Shows n version app rolled_back = IsBack app

-- The app in the API server after the block: the last one that was written.
abbrev pub stored : App → List App → App
stored app [] = app
stored app (a ∷ written) = a

-- The app in the API server after a reconcile.
unfoldable pub reconcile_canary : App → Cluster → App
unfolding canary_block
reconcile_canary app cluster =
    if app.spec.canary.active then stored app (canary_block cluster app).written else app

module _ (cluster : Cluster) where
  -- What is stored is what was before, or what the block leaves.
  abbrev Keeps : App → Block → Type 0
  Keeps app b = (stored app b.written ≡ app) ⊎ (stored app b.written ≡ b.app)

  write_step-stored :
      (app : App) (written : List App) (r : CanaryResult)
      → (stored app (write_step cluster written r).written ≡ stored app written)
        ⊎ (stored app (write_step cluster written r).written ≡ (write_step cluster written r).app)
  unfolding write_step
  write_step-stored app written r = elim (Option-cases r.error) [
    | inr (e, h) ↦ inl (rw (h, write_step) refl)
    | inl h ↦ elim (Option-cases (cluster.update r.app)) [
      | inr (e, k) ↦ inl (rw (h, write_step, k) refl)
      | inl k ↦ inr (rw (h, write_step, k) refl)
    ]
  ]

  step_canary-IsStored :
      (written : List App) (app state : App)
      → (stored state (step_canary cluster written app).written ≡ stored state written)
        ⊎ (stored state (step_canary cluster written app).written
            ≡ (step_canary cluster written app).app)
  unfolding step_canary
  step_canary-IsStored written app state = elim (Result-cases cluster.hpas) [
    | inr (e, h) ↦ inl (rw (h, step_canary) refl)
    | inl (hpas, h) ↦
        rw (h, step_canary)
          (write_step-stored state written (do_canary app cluster.now (hpa_target_map app hpas)))
  ]

  module _ (n k : ℕ) (version : ℤ) (app : App) (two : 2 ≤ n) (hundred : n ≤ 100) (le : suc k ≤ n)
      (p : InProgress n k version app) where
    abbrev after_timeout : App
    after_timeout = back cluster n k version app two hundred le p

    not_ready-Keeps : (e : Error) → Keeps app (not_ready cluster app e)
    unfolding not_ready
    not_ready-Keeps e = elim (Result-cases (timeout_expired app.spec.canary.started cluster.now)) [
      | inr (x, h) ↦ inl (rw (h, not_ready) refl)
      | inl (false, h) ↦ inl (rw (h, not_ready) refl)
      | inl (true, h) ↦ elim (Option-cases (cluster.update after_timeout)) [
        | inr (x, u) ↦
            inl
              (rw (h, not_ready, do_rollback-back cluster n k version app two hundred le p, u) refl)
        | inl u ↦
            rw (h, not_ready, do_rollback-back cluster n k version app two hundred le p, u)
              (elim (step_canary-IsStored (after_timeout ∷ []) after_timeout app) [
                | inl same ↦
                    inr (same ∙ sym (step_canary-back cluster n k version app two hundred le p))
                | inr stepped ↦ inr stepped
              ])
      ]
    ]

    canary_block-Keeps : Keeps app (canary_block cluster app)
    unfolding with_canary_deployment
    canary_block-Keeps =
        subst (Keeps app) (sym (canary_block_lem cluster n k version app two hundred le p))
          (elim (Option-cases
            (check_pod_status app.name p.dest.version (cluster.pods app.name p.dest.version)).1) [
              | inl h ↦ rw (h, with_canary_deployment) (step_canary-IsStored [] app app)
              | inr (e, h) ↦ rw (h, with_canary_deployment) (not_ready-Keeps e)
            ])

    is_active : reconcile_canary app cluster ≡ stored app (canary_block cluster app).written
    unfolding reconcile_canary
    is_active = ap (λ b. if b then stored app (canary_block cluster app).written else app) p.active

    -- A reconcile of a canary in progress.
    reconcile_canary-Progress : Progress n k version app (reconcile_canary app cluster)
    reconcile_canary-Progress =
        subst (Progress n k version app) (sym is_active) (elim canary_block-Keeps [
          | inl same ↦ inl same
          | inr written ↦
              subst (Progress n k version app) (sym written)
                (canary_block-Progress cluster n k version app two hundred le p)
        ])

  -- A canary that is over is left alone.
  reconcile_canary_over :
      (app : App) → app.spec.canary.active ≡ false → reconcile_canary app cluster ≡ app
  unfolding reconcile_canary
  reconcile_canary_over app h =
      ap (λ b. if b then stored app (canary_block cluster app).written else app) h

IsBack-of : (app app' : App) → IsRolledBack app app' → IsBack app'
IsBack-of app app' r = record {
  inactive = ap (λ a. a.spec.canary.active) r.rolled_back;
  source = with_weight 100 r.source;
  dest = with_weight 0 r.dest;
  deployments = ap (λ a. a.spec.deployments) r.rolled_back;
  source_weight = refl;
  dest_weight = refl;
}

module _ (n : ℕ) (version : ℤ) (two : 2 ≤ n) (hundred : n ≤ 100) where
  -- What comes after a phase, in at most `m` reconciles.
  abbrev pub Refines : ℕ → Phase → App → Type 0
  Refines m before app = (after : Phase) × Steps n m before after × Shows n version app after

  -- A reconcile makes at most one step of the abstract canary.
  pub reconcile_canary-Refines :
      (before : Phase) (app : App) (cluster : Cluster)
      → Shows n version app before
      → (after : Phase) × (after ≡ before ⊎ Step n before after)
        × Shows n version (reconcile_canary app cluster) after
  reconcile_canary-Refines (progressing k) app cluster (p, le) =
      elim (reconcile_canary-Progress cluster n k version app two hundred le p) [
        | inl same ↦ (
          progressing k,
          inl refl,
          subst (λ a. Shows n version a (progressing k)) (sym same) (p, le),
        )
        | inr (inl (more, q)) ↦ (progressing (suc k), inr (advance k more), (q, more))
        | inr (inr (inl (last, q))) ↦ (finished, inr (finish k last), q)
        | inr (inr (inr back)) ↦ (rolled_back, inr (roll_back k), IsBack-of app _ back)
      ]
  reconcile_canary-Refines finished app cluster h = (
    finished,
    inl refl,
    subst (IsFinished n version) (sym (reconcile_canary_over cluster app h.inactive)) h,
  )
  reconcile_canary-Refines rolled_back app cluster h =
      (rolled_back, inl refl, subst IsBack (sym (reconcile_canary_over cluster app h.inactive)) h)
