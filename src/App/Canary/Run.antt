-- ===== src/App/Canary/Run.antt =====
-- A whole canary deployment: from the state that a deployment with steps sets up to its end.
use native.Mathlib.Nat.{div-add-mod, mod-lt, mul-le-mul_right}
use ketch.Base.{
  ◌+ℤ◌, zero, beq, ◌∙◌, ℕ, suc, ◌+◌, ◌*◌, ◌/◌, ◌%◌, ◌≤◌, ◌<◌, Bool, true, false, [], ◌∷◌, none,
  some, ℤ, pos, add_int-pos, leb_ℤ, Dict, ◌≡◌, refl, ap, arith, if◌then◌else◌,
}
use ketch.App.{Time, AppDeploymentSpec, App}
use ketch.App.Scaling.{Stage, is_last, finish_dest}
use ketch.App.Canary.Step.{stage_weights, do_canary-app}
use ketch.App.Canary.{with_canary, step_stage, step_app, do_canary, next_canary, finished_canary}

-- The canary of `n` steps has made `k` of them: the source has `100 - k * (100 / n)` of the traffic
-- and the destination, of the given version, the rest.
pub record InProgress (n k : ℕ) (version : ℤ) (app : App) : Type 0 where
  pub active : app.spec.canary.active ≡ true
  pub steps : app.spec.canary.steps ≡ pos n
  pub step_weight : app.spec.canary.step_weight ≡ 100 / n
  pub current_step : app.spec.canary.current_step ≡ pos (suc k)
  pub scheduled : Time
  pub is_scheduled : app.spec.canary.next_scheduled_time ≡ some scheduled
  pub source : AppDeploymentSpec
  pub dest : AppDeploymentSpec
  pub deployments : app.spec.deployments ≡ source ∷ dest ∷ []
  pub source_weight : source.routing_settings.weight + k * (100 / n) ≡ 100
  pub dest_version : dest.version ≡ version
  pub dest_weight : dest.routing_settings.weight ≡ k * (100 / n)

-- The canary of `n` steps is over: one deployment has all the traffic.
pub record IsFinished (n : ℕ) (version : ℤ) (app : App) : Type 0 where
  pub inactive : app.spec.canary.active ≡ false
  pub current_step : app.spec.canary.current_step ≡ pos (suc n)
  pub unscheduled : app.spec.canary.next_scheduled_time ≡ none
  pub last : AppDeploymentSpec
  pub deployments : app.spec.deployments ≡ last ∷ []
  pub weight : last.routing_settings.weight ≡ 100
  pub same_version : last.version ≡ version

-- The weights of a canary stay in range.
share_bounds :
    (n k : ℕ)
    → 2 ≤ n
    → n ≤ 100
    → suc k ≤ n
    → (suc k * (100 / n) ≤ 100) × (suc k < n → suc k * (100 / n) < 100)
share_bounds n k two hundred le =
    let all = div-add-mod 100 n in
    let rest = mod-lt 100 {m = n} (omega arith) in
    let some_share : 1 ≤ 100 / n = share_pos n (100 / n) (100 % n) hundred all rest in
    (
      omega (arith, all, mul-le-mul_right {m = suc k} {n = n} (100 / n) le),
      λ lt. omega (arith, all, some_share, mul-le-mul_right {m = suc (suc k)} {n = n} (100 / n) lt),
    )
  where
    share_pos : (m q r : ℕ) → m ≤ 100 → m * q + r ≡ 100 → r < m → 1 ≤ q
    share_pos m zero r h e lt = absurd (omega arith)
    share_pos m (suc q) r h e lt = omega arith

module _ (n k : ℕ) (app : App) (now : Time) (disabled : Dict Bool) (version : ℤ)
    (p : InProgress n k version app) (due : leb_ℤ p.scheduled now ≡ true) (two : 2 ≤ n)
    (hundred : n ≤ 100) (le : suc k ≤ n) where
  abbrev stage : Stage
  stage = step_stage app.spec.canary disabled p.source p.dest

  due_app : (do_canary app now disabled).app ≡ step_app app p.scheduled disabled p.source p.dest []
  due_app = ground (arith, do_canary-app app now disabled)

  weights :
      (stage.source.routing_settings.weight + suc k * (100 / n) ≡ 100)
      × (stage.dest.routing_settings.weight ≡ suc k * (100 / n))
  weights =
      let (source, dest, _) = stage_weights app disabled p.source p.dest in
      let bound = (share_bounds n k two hundred le).0 in
      (
        omega (arith, source, bound, p.source_weight, p.step_weight),
        omega (arith, dest, bound, p.dest_weight, p.step_weight),
      )

  step_is_last : is_last app.spec.canary stage.dest ≡ beq (suc k) n
  unfolding is_last
  step_is_last = ground (arith, weights.1, share_bounds n k two hundred le, p.current_step, p.steps)

  step_app_lem : step_app app p.scheduled disabled p.source p.dest [] ≡ (
      if beq (suc k) n
      then with_canary app
          (finished_canary app.spec.canary)
          (finish_dest app.spec.canary stage.dest ∷ [])
      else with_canary app
          (next_canary p.scheduled app.spec.canary)
          (stage.source ∷ stage.dest ∷ []))
  unfolding step_app
  step_app_lem = rw step_is_last refl

  -- A due step before the last one.
  pub InProgress-step : suc k < n → InProgress n (suc k) version (do_canary app now disabled).app
  unfolding next_canary
  InProgress-step more =
      rw (due_app, step_app_lem, not_equal)
        (record {
          active = p.active;
          steps = p.steps;
          step_weight = p.step_weight;
          current_step =
              rw p.current_step (add_int-pos (suc k) 1 (omega arith) ∙ ap pos (omega arith));
          scheduled = p.scheduled +ℤ app.spec.canary.step_time_interval;
          is_scheduled = refl;
          source = stage.source;
          dest = stage.dest;
          deployments = refl;
          source_weight = weights.0;
          dest_version = (stage_weights app disabled p.source p.dest).2 ∙ p.dest_version;
          dest_weight = weights.1;
        })
    where
      not_equal : beq (suc k) n ≡ false
      not_equal = ground arith

  -- The last step.
  pub InProgress-last : suc k ≡ n → IsFinished n version (do_canary app now disabled).app
  unfolding finished_canary finish_dest
  InProgress-last last =
      rw (due_app, step_app_lem, equal)
        (record {
          inactive = refl;
          current_step = rw p.steps (add_int-pos n 1 (omega arith) ∙ ap pos (omega arith));
          unscheduled = refl;
          last = finish_dest app.spec.canary stage.dest;
          deployments = refl;
          weight = refl;
          same_version = (stage_weights app disabled p.source p.dest).2 ∙ p.dest_version;
        })
    where
      equal : beq (suc k) n ≡ true
      equal = ground arith

-- `k` calls of `DoCanary`, each at a time when its step is due.
pub data Due : ℕ → App → App → Type 0 where
  here : {app : App} → Due zero app app
  next :
      {k : ℕ} {app mid : App} (scheduled now : Time) (disabled : Dict Bool)
      → Due k app mid
      → mid.spec.canary.next_scheduled_time ≡ some scheduled
      → leb_ℤ scheduled now ≡ true
      → Due (suc k) app (do_canary mid now disabled).app

-- The state after `k` due steps of `n`.
abbrev pub After : ℕ → ℕ → ℤ → App → Type 0
After n k version app = (k < n → InProgress n k version app) × (k ≡ n → IsFinished n version app)

module _ (n : ℕ) (version : ℤ) (two : 2 ≤ n) (hundred : n ≤ 100) where
  After-step :
      (k : ℕ) (mid : App) (scheduled now : Time) (disabled : Dict Bool)
      → suc k ≤ n
      → InProgress n k version mid
      → mid.spec.canary.next_scheduled_time ≡ some scheduled
      → leb_ℤ scheduled now ≡ true
      → After n (suc k) version (do_canary mid now disabled).app
  After-step k mid scheduled now disabled le p at due =
      let same : leb_ℤ p.scheduled now ≡ true = ground (arith, p.is_scheduled) in
      (
        λ lt. InProgress-step n k mid now disabled version p same two hundred le lt,
        λ last. InProgress-last n k mid now disabled version p same two hundred le last,
      )

  -- A canary of 2 to 100 steps that has just been set up is in progress for all of its steps but the
  -- last, with the weights of that many steps; the last one leaves the new deployment alone, with
  -- all the traffic.
  pub canary_run :
      (k : ℕ) {app app' : App}
      → InProgress n 0 version app
      → Due k app app'
      → k ≤ n
      → After n k version app'
  canary_run k p here le = (λ lt. p, λ e. absurd (omega arith))
  canary_run k p (next scheduled now disabled run at due) le =
      After-step _ _ scheduled now disabled le ((canary_run _ p run (omega arith)).0 (omega arith))
        at due
