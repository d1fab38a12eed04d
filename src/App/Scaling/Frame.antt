-- ===== src/App/Scaling/Frame.antt =====
-- Scaling changes the processes of the two deployments and nothing else.
use ketch.Base.{
  ℕ, String, Bool, List, [], ◌∷◌, Option, none, some, ℤ, pos, Dict, lookup, ◌≡◌, refl, ap, arith,
  inl, inr, Option-cases,
}
use ketch.App.{ProcessSpec, AppDeploymentSpec}
use ketch.App.Units.{with_processes, set_units_of}
use ketch.App.Scaling.{Stage, set_or_keep, scale_process, scale_targets, fill_missing, scale}

-- The deployments differ in their processes at most.
abbrev pub KeepsRest : AppDeploymentSpec → AppDeploymentSpec → Type 0
KeepsRest d d' = d' ≡ with_processes d d'.processes

pub KeepsRest-refl : (d : AppDeploymentSpec) → KeepsRest d d
unfolding with_processes
KeepsRest-refl d = refl

KeepsRest-trans : (a b c : AppDeploymentSpec) → KeepsRest a b → KeepsRest b c → KeepsRest a c
unfolding with_processes
KeepsRest-trans a b c h k = ground arith

set_or_keep-KeepsRest :
    (process : String) (units : ℤ) (d : AppDeploymentSpec)
    → KeepsRest d (set_or_keep process units d)
unfolding set_or_keep set_units_of with_processes
set_or_keep-KeepsRest process units d = ground arith

-- Both deployments of a stage differ in their processes at most.
pub record StageKeeps (s t : Stage) : Type 0 where
  pub source : KeepsRest s.source t.source
  pub dest : KeepsRest s.dest t.dest

StageKeeps-refl : (s : Stage) → StageKeeps s s
StageKeeps-refl s = record { source = KeepsRest-refl s.source; dest = KeepsRest-refl s.dest }

StageKeeps-trans : (s t u : Stage) → StageKeeps s t → StageKeeps t u → StageKeeps s u
StageKeeps-trans s t u h k = record {
  source = KeepsRest-trans s.source t.source u.source h.source k.source;
  dest = KeepsRest-trans s.dest t.dest u.dest h.dest k.dest;
}

scale_process-StageKeeps :
    (process : String) (target : ℕ) (s : Stage) → StageKeeps s (scale_process process target s)
unfolding scale_process
scale_process-StageKeeps process target s = record {
  source = set_or_keep-KeepsRest process _ s.source;
  dest = set_or_keep-KeepsRest process _ s.dest;
}

scale_targets-StageKeeps :
    (disabled : Dict Bool) (targets : Dict ℕ) (s : Stage)
    → StageKeeps s (scale_targets disabled targets s)
unfolding scale_targets
scale_targets-StageKeeps disabled [] s = StageKeeps-refl s
scale_targets-StageKeeps disabled ((process, target) ∷ targets) s =
    elim (Option-cases (lookup process disabled)) [
      | inl e ↦
          rw (e, scale_targets)
            (StageKeeps-trans s (scale_process process target s) _
              (scale_process-StageKeeps process target s)
              (scale_targets-StageKeeps disabled targets (scale_process process target s)))
      | inr (b, e) ↦ rw (e, scale_targets) (scale_targets-StageKeeps disabled targets s)
    ]

fill_missing-KeepsRest :
    (targets : Dict ℕ) (ps : List ProcessSpec) (d : AppDeploymentSpec)
    → KeepsRest d (fill_missing targets ps d)
unfolding fill_missing
fill_missing-KeepsRest targets [] d = KeepsRest-refl d
fill_missing-KeepsRest targets (p ∷ ps) d = elim (Option-cases (lookup p.name targets)) [
  | inl e ↦
      rw (e, fill_missing)
        (KeepsRest-trans d (set_or_keep p.name (pos 1) d) _ (set_or_keep-KeepsRest p.name (pos 1) d)
          (fill_missing-KeepsRest targets ps (set_or_keep p.name (pos 1) d)))
  | inr (t, e) ↦ rw (e, fill_missing) (fill_missing-KeepsRest targets ps d)
]

-- Whatever the targets, a step's scaling keeps the weights, versions and images of both deployments.
pub scale-StageKeeps :
    (disabled : Dict Bool) (targets : Option (Dict ℕ)) (s : Stage)
    → StageKeeps s (scale disabled targets s)
unfolding scale
scale-StageKeeps disabled none s = StageKeeps-refl s
scale-StageKeeps disabled (some targets) s =
    let h = scale_targets-StageKeeps disabled targets s in
    let t = (scale_targets disabled targets s).dest in
    record {
      source = h.source;
      dest = KeepsRest-trans s.dest t _ h.dest (fill_missing-KeepsRest targets t.processes t);
    }

pub KeepsRest-weight :
    (d d' : AppDeploymentSpec)
    → KeepsRest d d'
    → d'.routing_settings.weight ≡ d.routing_settings.weight
unfolding with_processes
KeepsRest-weight d d' h = ap (λ (x : AppDeploymentSpec). x.routing_settings.weight) h

pub KeepsRest-version : (d d' : AppDeploymentSpec) → KeepsRest d d' → d'.version ≡ d.version
unfolding with_processes
KeepsRest-version d d' h = ap (λ (x : AppDeploymentSpec). x.version) h
