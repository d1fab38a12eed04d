-- ===== src/App/Canary/Finish.antt =====
-- The last step of a canary gives every process its target units, also one that an autoscaler scales.
use ketch.Base.{
  ℕ, String, Bool, true, List, [], ◌∷◌, map, Option, none, some, ℤ, pos, leb_ℤ, Dict, lookup,
  Result, ok, err, ◌==◌, ◌≡◌, refl, ap, ◌∙◌, arith, eq_iff, inl, inr, Option-cases, Bool-cases,
}
use ketch.App.{Time, ProcessSpec, AppDeploymentSpec, App}
use ketch.App.Units.{with_units, with_processes, set_process_units, set_units_of, is_some}
use ketch.App.Units.Laws.{find_process}
use ketch.App.Scaling.{
  Stage, set_or_keep, scale_process, scale_targets, fill_missing, scale, finish_process,
  finish_dest, is_last,
}
use ketch.App.Canary.{step_stage, step_app, do_canary}
use ketch.App.Canary.Step.{do_canary-app}

abbrev has : String → AppDeploymentSpec → Bool
has name d = is_some (find_process name d.processes)

abbrev kept_or : List ProcessSpec → Result (List ProcessSpec) → List ProcessSpec
kept_or ps (ok qs) = qs
kept_or ps (err e) = ps

set_process_units-has :
    (name process : String) (units : ℤ) (ps : List ProcessSpec)
    → is_some (find_process name (kept_or ps (set_process_units process units ps)))
      ≡ is_some (find_process name ps)
unfolding set_process_units
set_process_units-has name process units [] = refl
set_process_units-has name process units (p ∷ ps) =
    ground (arith, set_process_units-has name process units ps)

set_or_keep-has :
    (name process : String) (units : ℤ) (d : AppDeploymentSpec)
    → has name (set_or_keep process units d) ≡ has name d
unfolding set_or_keep set_units_of with_processes
set_or_keep-has name process units d =
    ground (arith, set_process_units-has name process units d.processes)

scale_targets-has :
    (name : String) (disabled : Dict Bool) (targets : Dict ℕ) (s : Stage)
    → has name (scale_targets disabled targets s).dest ≡ has name s.dest
unfolding scale_targets scale_process
scale_targets-has name disabled [] s = refl
scale_targets-has name disabled ((process, target) ∷ targets) s =
    elim (Option-cases (lookup process disabled)) [
      | inl e ↦
          rw (e, scale_targets)
            (scale_targets-has name disabled targets (scale_process process target s)
              ∙ set_or_keep-has name process _ s.dest)
      | inr (b, e) ↦ rw (e, scale_targets) (scale_targets-has name disabled targets s)
    ]

fill_missing-has :
    (name : String) (targets : Dict ℕ) (ps : List ProcessSpec) (d : AppDeploymentSpec)
    → has name (fill_missing targets ps d) ≡ has name d
unfolding fill_missing
fill_missing-has name targets [] d = refl
fill_missing-has name targets (p ∷ ps) d = elim (Option-cases (lookup p.name targets)) [
  | inl e ↦
      rw (e, fill_missing)
        (fill_missing-has name targets ps (set_or_keep p.name (pos 1) d)
          ∙ set_or_keep-has name p.name (pos 1) d)
  | inr (t, e) ↦ rw (e, fill_missing) (fill_missing-has name targets ps d)
]

scale-has :
    (name : String) (disabled : Dict Bool) (targets : Option (Dict ℕ)) (s : Stage)
    → has name (scale disabled targets s).dest ≡ has name s.dest
unfolding scale
scale-has name disabled none s = refl
scale-has name disabled (some targets) s =
    let t = (scale_targets disabled targets s).dest in
    fill_missing-has name targets t.processes t ∙ scale_targets-has name disabled targets s

-- The units of a process after the loop of the last step.
find_process-finish :
    (name : String) (targets : Dict ℕ) (t : ℕ) (ps : List ProcessSpec)
    → lookup name targets ≡ some t
    → is_some (find_process name ps) ≡ true
    → (p : ProcessSpec) × (find_process name (map (finish_process (some targets)) ps) ≡ some p)
      × (p.units ≡ some (pos t))
unfolding finish_process
find_process-finish name targets t [] h there = cc
find_process-finish name targets t (p ∷ ps) h there = elim (Bool-cases (p.name == name)) [
  | inl same ↦
      let e : lookup p.name targets ≡ some t =
        ap (λ n. lookup n targets) ((eq_iff p.name name).0 same) ∙ h in
      (with_units (pos t) p, ground (arith, same, e), refl)
  | inr other ↦
      let (q, found, units) =
        find_process-finish name targets t ps h (ground (arith, there, other)) in
      (q, ground (arith, found, other), units)
]

step_app-last :
    (app : App) (scheduled : Time) (disabled : Dict Bool) (source dest : AppDeploymentSpec)
    (rest : List AppDeploymentSpec)
    → is_last app.spec.canary (step_stage app.spec.canary disabled source dest).dest ≡ true
    → (step_app app scheduled disabled source dest rest).spec.deployments
      ≡ finish_dest app.spec.canary (step_stage app.spec.canary disabled source dest).dest ∷ []
unfolding step_app
step_app-last app scheduled disabled source dest rest last = rw last refl

-- The last step, whatever processes autoscalers scale.
pub do_canary-finish :
    (app : App) (now scheduled : Time) (disabled : Dict Bool) (source dest : AppDeploymentSpec)
    (rest : List AppDeploymentSpec) (targets : Dict ℕ) (name : String) (t : ℕ)
    → app.spec.canary.active ≡ true
    → app.spec.canary.next_scheduled_time ≡ some scheduled
    → leb_ℤ scheduled now ≡ true
    → app.spec.deployments ≡ source ∷ dest ∷ rest
    → app.spec.canary.target ≡ some targets
    → is_last app.spec.canary (step_stage app.spec.canary disabled source dest).dest ≡ true
    → lookup name targets ≡ some t
    → is_some (find_process name dest.processes) ≡ true
    → (d : AppDeploymentSpec) × (p : ProcessSpec) × ((do_canary app now
          disabled).app.spec.deployments
        ≡ d ∷ [])
      × (find_process name d.processes ≡ some p)
      × (p.units ≡ some (pos t))
unfolding finish_dest step_stage with_processes
do_canary-finish app now scheduled disabled source dest rest targets name t active at due ds target
      last h there =
    let c = app.spec.canary in
    let stage = step_stage c disabled source dest in
    let due_app : (do_canary app now disabled).app
        ≡ step_app app scheduled disabled source dest rest =
      ground (arith, do_canary-app app now disabled, active, at, due, ds) in
    let there' : has name stage.dest ≡ true = scale-has name disabled c.target _ ∙ there in
    let (p, found, units) = find_process-finish name targets t stage.dest.processes h there' in
    (
      finish_dest c stage.dest,
      p,
      ap (λ a. a.spec.deployments) due_app
          ∙ step_app-last app scheduled disabled source dest rest last,
      ap (λ o. find_process name (map (finish_process o) stage.dest.processes)) target ∙ found,
      units,
    )
