-- ===== src/App/Units/Starting.antt =====
-- What `Start` does to processes that run already.
use ketch.Base.{
  String, true, false, List, [], ◌∷◌, some, ℤ, pos, ◌≤ℤ◌, ltb_ℤ, ◌≡◌, refl, err,
  deployment_not_found, ◌==◌, All, Pointwise, arith, Bool-cases, inl, inr, ◌≢◌, eq_iff, beq_ℤ_iff,
}
use ketch.App.{ProcessSpec, AppDeploymentSpec, App}
use ketch.App.Units.{
  Selector, with_processes, is_skipped, is_started, start_processes, start_loop, start, units_of,
}

-- `Start` leaves the name of a process, does not lower its units, and does not touch it when it
-- has more than one unit.
pub record IsRaised (p q : ProcessSpec) : Type 0 where
  pub name : q.name ≡ p.name
  pub raised : units_of p ≤ℤ units_of q
  pub kept : ltb_ℤ (pos 1) (units_of p) ≡ true → q ≡ p

unfoldable started : ProcessSpec → ProcessSpec
started p = record p { units = some (pos 1) }

started-IsRaised : (s : Selector) (p : ProcessSpec) → is_started s p ≡ true → IsRaised p (started p)
unfolding is_started started
started-IsRaised s p h = ground arith

IsRaised-refl : (p : ProcessSpec) → IsRaised p p
IsRaised-refl p = ground arith

start_processes-IsRaised :
    (s : Selector) (ps : List ProcessSpec) → Pointwise IsRaised ps (start_processes s ps).0
unfolding start_processes started
start_processes-IsRaised s [] = tt
start_processes-IsRaised s (p ∷ ps) = elim (Bool-cases (is_started s p)) [
  | inl e ↦ rw (e, start_processes) (started-IsRaised s p e, start_processes-IsRaised s ps)
  | inr e ↦ rw (e, start_processes) (IsRaised-refl p, start_processes-IsRaised s ps)
]

Pointwise-IsRaised_refl : (ps : List ProcessSpec) → Pointwise IsRaised ps ps
Pointwise-IsRaised_refl [] = tt
Pointwise-IsRaised_refl (p ∷ ps) = (IsRaised-refl p, Pointwise-IsRaised_refl ps)

-- The same deployment, with processes that `Start` may have raised.
abbrev pub AreRaised : AppDeploymentSpec → AppDeploymentSpec → Type 0
AreRaised d d' = (d'.version ≡ d.version) × Pointwise IsRaised d.processes d'.processes

start_loop-AreRaised :
    (s : Selector) (ds : List AppDeploymentSpec) → Pointwise AreRaised ds (start_loop s ds).0
unfolding start_loop
start_loop-AreRaised s [] = tt
start_loop-AreRaised s (d ∷ ds) = elim (Bool-cases (is_skipped s d)) [
  | inl e ↦
      rw (e, start_loop) ((refl, Pointwise-IsRaised_refl d.processes), start_loop-AreRaised s ds)
  | inr e ↦
      rw (e, start_loop) ((refl, start_processes-IsRaised s d.processes), start_loop-AreRaised s ds)
]

-- Whatever the selector and the result, `Start` keeps the deployments and their processes in
-- place, lowers the units of none and leaves a process alone that has more than one unit.
pub start-AreRaised :
    (s : Selector) (app : App)
    → Pointwise AreRaised app.spec.deployments (start s app).0.spec.deployments
unfolding start
start-AreRaised s app = start_loop-AreRaised s app.spec.deployments

-- A process of that name runs: it has a unit count, and the count is not zero.
abbrev pub IsRunning : String → ProcessSpec → Type 0
IsRunning name p = p.name ≡ name → (u : ℤ) × (p.units ≡ some u) × (u ≢ pos 0)

is_started_running :
    (s : Selector) (name : String) (p : ProcessSpec)
    → s.process ≡ some name
    → IsRunning name p
    → is_started s p ≡ false
unfolding is_started
is_started_running s name p e h = elim (Bool-cases (p.name == name)) [
  | inl same ↦
      let (u, units, nonzero) = h ((eq_iff p.name name).0 same) in
      ground (arith, beq_ℤ_iff u (pos 0))
  | inr other ↦ rw (e, is_started, other) refl
]

start_processes_running :
    (s : Selector) (name : String) (ps : List ProcessSpec)
    → s.process ≡ some name
    → All (IsRunning name) ps
    → start_processes s ps ≡ (ps, false)
unfolding start_processes
start_processes_running s name [] e h = refl
start_processes_running s name (p ∷ ps) e (h, hs) =
    rw (is_started_running s name p e h, start_processes_running s name ps e hs) refl

start_loop_running :
    (s : Selector) (name : String) (ds : List AppDeploymentSpec)
    → s.process ≡ some name
    → All (λ d. All (IsRunning name) d.processes) ds
    → start_loop s ds ≡ (ds, false)
unfolding start_loop with_processes
start_loop_running s name [] e h = refl
start_loop_running s name (d ∷ ds) e (h, hs) = elim (Bool-cases (is_skipped s d)) [
  | inl k ↦ rw (k, start_loop, start_loop_running s name ds e hs) refl
  | inr k ↦
      rw
        (
          k,
          start_loop,
          start_processes_running s name d.processes e h,
          start_loop_running s name ds e hs,
        )
        refl
]

-- Starting a process that runs everywhere already (or that is nowhere) changes nothing, and is
-- reported as "deployment not found".
pub start_running :
    (s : Selector) (name : String) (app : App)
    → s.process ≡ some name
    → All (λ d. All (IsRunning name) d.processes) app.spec.deployments
    → start s app ≡ (app, err deployment_not_found)
unfolding start
start_running s name app e h = ground (arith, start_loop_running s name app.spec.deployments e h)
