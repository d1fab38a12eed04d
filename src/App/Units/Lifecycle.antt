-- ===== src/App/Units/Lifecycle.antt =====
-- `Stop`, `Start` and the total of `Units` together.
use ketch.Base.{
  ℕ, suc, ◌+◌, ◌^◌, ◌<◌, Bool, true, false, List, [], ◌∷◌, map, none, some, ℤ, pos, add_int,
  add_int-pos, ◌≡◌, refl, ap, ◌∙◌, ok, length, All, arith,
}
use ketch.App.{ProcessSpec, AppDeploymentSpec, App}
use ketch.App.Units.{
  Selector, with_units, set_units_loop, set_units, stop, start_processes, start_loop, start,
  units_of, units_of_processes, units_of_deployments, units,
}

-- The selector of a command without flags: all processes of all deployments.
abbrev pub everything : Selector
everything = record { process = none; deployment_version = none }

-- Every process of the deployments has the given units.
abbrev pub AllUnits : ℤ → List AppDeploymentSpec → Type 0
AllUnits u ds = All (λ d. All (λ p. p.units ≡ some u) d.processes) ds

abbrev pub count_processes : List AppDeploymentSpec → ℕ
count_processes [] = 0
count_processes (d ∷ ds) = length d.processes + count_processes ds

module _ (u : ℤ) where
  map_units-All : (ps : List ProcessSpec) → All (λ p. p.units ≡ some u) (map (with_units u) ps)
  map_units-All [] = tt
  map_units-All (p ∷ ps) = (refl, map_units-All ps)

  length-map_units : (ps : List ProcessSpec) → length (map (with_units u) ps) ≡ length ps
  length-map_units [] = refl
  length-map_units (p ∷ ps) = ap suc (length-map_units ps)

  set_units_loop-AllUnits :
      (found : Bool) (ds : List AppDeploymentSpec)
      → AllUnits u (set_units_loop everything u found ds).0
  unfolding set_units_loop
  set_units_loop-AllUnits found [] = tt
  set_units_loop-AllUnits found (d ∷ ds) =
      (map_units-All d.processes, set_units_loop-AllUnits true ds)

  set_units_loop-ok :
      (found : Bool) (ds : List AppDeploymentSpec)
      → (b : Bool) × ((set_units_loop everything u found ds).1 ≡ ok b)
  unfolding set_units_loop
  set_units_loop-ok found [] = (found, refl)
  set_units_loop-ok found (d ∷ ds) = set_units_loop-ok true ds

-- `SetUnits` of a whole app.
pub set_units-AllUnits :
    (u : ℤ) (app : App) → AllUnits u (set_units everything u app).0.spec.deployments
unfolding set_units
set_units-AllUnits u app = set_units_loop-AllUnits u false app.spec.deployments

pub set_units-everything : (u : ℤ) (app : App) → (set_units everything u app).1 ≡ ok tt
unfolding set_units
set_units-everything u app =
    let (found, e) = set_units_loop-ok u false app.spec.deployments in rw e refl

units_of_processes_zero :
    (n : ℤ) (ps : List ProcessSpec)
    → n ≡ pos 0
    → All (λ p. p.units ≡ some (pos 0)) ps
    → units_of_processes n ps ≡ pos 0
unfolding units_of_processes add_int
units_of_processes_zero n [] e h = e
units_of_processes_zero n (p ∷ ps) e (h, hs) =
    units_of_processes_zero (add_int n (units_of p)) ps (rw (e, h)) hs

units_of_deployments_zero :
    (n : ℤ) (ds : List AppDeploymentSpec)
    → n ≡ pos 0
    → AllUnits (pos 0) ds
    → units_of_deployments n ds ≡ pos 0
unfolding units_of_deployments
units_of_deployments_zero n [] e h = e
units_of_deployments_zero n (d ∷ ds) e (h, hs) =
    units_of_deployments_zero (units_of_processes n d.processes) ds
      (units_of_processes_zero n d.processes e h) hs

-- Stopping a whole app succeeds and leaves no unit running.
pub units-stop :
    (app : App) → ((stop everything app).1 ≡ ok tt) × (units (stop everything app).0 ≡ pos 0)
unfolding stop units
units-stop app = (
  ground (arith, set_units_loop-ok (pos 0) false app.spec.deployments),
  units_of_deployments_zero (pos 0) _ refl
      (set_units_loop-AllUnits (pos 0) false app.spec.deployments),
)

start_processes-All :
    (ps : List ProcessSpec)
    → All (λ p. p.units ≡ some (pos 0)) ps
    → All (λ p. p.units ≡ some (pos 1)) (start_processes everything ps).0
      × (length (start_processes everything ps).0 ≡ length ps)
unfolding start_processes
start_processes-All [] h = (tt, refl)
start_processes-All (p ∷ ps) (h, hs) = ground (arith, start_processes-All ps hs)

units_of_processes_ones :
    (n : ℕ) (ps : List ProcessSpec)
    → n + length ps < 2 ^ 63
    → All (λ p. p.units ≡ some (pos 1)) ps
    → units_of_processes (pos n) ps ≡ pos (n + length ps)
unfolding units_of_processes
units_of_processes_ones n [] b h = ground arith
units_of_processes_ones n (p ∷ ps) b (h, hs) =
    rw (h, add_int-pos n 1 (omega arith))
      (units_of_processes_ones (n + 1) ps (omega arith) hs ∙ ap pos (omega arith))

start_loop-units :
    (n : ℕ) (ds : List AppDeploymentSpec)
    → n + count_processes ds < 2 ^ 63
    → AllUnits (pos 0) ds
    → units_of_deployments (pos n) (start_loop everything ds).0 ≡ pos (n + count_processes ds)
unfolding units_of_deployments start_loop
start_loop-units n [] b h = ground arith
start_loop-units n (d ∷ ds) b (h, hs) =
    let (ones, same) = start_processes-All d.processes h in
    rw
      (
        units_of_processes_ones n (start_processes everything d.processes).0 (omega arith) ones,
        same,
      )
      (start_loop-units (n + length d.processes) ds (omega arith) hs ∙ ap pos (omega arith))

set_units_loop-count :
    (u : ℤ) (found : Bool) (ds : List AppDeploymentSpec)
    → count_processes (set_units_loop everything u found ds).0 ≡ count_processes ds
unfolding set_units_loop
set_units_loop-count u found [] = refl
set_units_loop-count u found (d ∷ ds) =
    omega (arith, length-map_units u d.processes, set_units_loop-count u true ds)

-- Starting a stopped app succeeds and gives every process one unit.
pub units-start-stop :
    (app : App)
    → count_processes app.spec.deployments < 2 ^ 63
    → let stopped = (stop everything app).0 in
      ((start everything stopped).1 ≡ ok tt)
      × (units (start everything stopped).0 ≡ pos (count_processes app.spec.deployments))
unfolding stop start units
units-start-stop app b =
    let ds = app.spec.deployments in
    let same = set_units_loop-count (pos 0) false ds in
    (
      refl,
      start_loop-units 0 (set_units_loop everything (pos 0) false ds).0 (omega (arith, same))
            (set_units_loop-AllUnits (pos 0) false ds)
          ∙ ap pos (omega (arith, same)),
    )
