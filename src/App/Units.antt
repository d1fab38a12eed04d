-- ===== src/App/Units.antt =====
-- The unit operations of internal/api/v1beta1/app_types.go (`setUnits`, `SetUnits`, `Stop`,
-- `Start`, `Units`) and selector.go. Copies of a deployment share the array of its processes, so
-- what the loops write through `deploymentSpec` reaches the app, also before a later error.
pub mod Laws
pub mod Lifecycle
pub mod Starting
use ketch.Base.{
  ℕ, String, Bool, true, false, List, [], ◌∷◌, map, Option, none, some, ℤ, pos, negsuc, add_int,
  beq_ℤ, ltb_ℤ, Result, ok, err, Error, process_not_found, deployment_not_found, ◌==◌, ◌&&◌, ◌||◌,
  not, if◌then◌else◌,
}
use ketch.App.{ProcessSpec, AppDeploymentSpec, App, with_deployments}

-- selector.go
pub record Selector : Type 0 where
  pub process : Option String
  pub deployment_version : Option ℤ

unfoldable pub new_selector : ℤ → String → Selector
new_selector deployment_version process_name = record {
  process = if process_name == "" then none else some process_name;
  deployment_version = if ltb_ℤ (pos 0) deployment_version then some deployment_version else none;
}

-- The process with `Units` pointing at the given number.
abbrev pub with_units : ℤ → ProcessSpec → ProcessSpec
with_units units p = record p { units = some units }

-- The loop of `setUnits`: the first process of that name gets the units.
unfoldable pub set_process_units : String → ℤ → List ProcessSpec → Result (List ProcessSpec)
set_process_units process units [] = err process_not_found
set_process_units process units (p ∷ ps) =
    if p.name == process
    then ok (with_units units p ∷ ps)
    else (elim (set_process_units process units ps) [ ok qs ↦ ok (p ∷ qs) | err e ↦ err e ])

unfoldable pub with_processes : AppDeploymentSpec → List ProcessSpec → AppDeploymentSpec
with_processes d ps = record d { processes = ps }

-- `(s *AppDeploymentSpec) setUnits`
unfoldable pub set_units_of : String → ℤ → AppDeploymentSpec → Result AppDeploymentSpec
unfolding set_process_units with_processes
set_units_of process units d = elim (set_process_units process units d.processes) [
  | ok ps ↦ ok (with_processes d ps)
  | err e ↦ err e
]

unfoldable pub set_units_for_all_process : ℤ → AppDeploymentSpec → AppDeploymentSpec
unfolding with_processes
set_units_for_all_process units d = with_processes d (map (with_units units) d.processes)

-- The test that makes the loops of `SetUnits` and `Start` skip a deployment.
unfoldable pub is_skipped : Selector → AppDeploymentSpec → Bool
is_skipped s d = elim s.deployment_version [ none ↦ false | some v ↦ not (beq_ℤ v d.version) ]

-- The body of the loop of `SetUnits` for a deployment that is not skipped.
unfoldable pub update_units : Selector → ℤ → AppDeploymentSpec → Result AppDeploymentSpec
unfolding set_units_of set_units_for_all_process
update_units s units d = elim s.process [
  | none ↦ ok (set_units_for_all_process units d)
  | some process ↦ set_units_of process units d
]

-- The loop: the deployments as it leaves them, and `deploymentFound` or the early error.
unfoldable pub set_units_loop :
    Selector → ℤ → Bool → List AppDeploymentSpec → List AppDeploymentSpec × Result Bool
unfolding is_skipped update_units
set_units_loop s units found [] = ([], ok found)
set_units_loop s units found (d ∷ ds) = elim (is_skipped s d) [
  | true ↦ (let (rest, r) = set_units_loop s units found ds in (d ∷ rest, r))
  | false ↦ elim (update_units s units d) [
    | err e ↦ (d ∷ ds, err e)
    | ok d' ↦ (let (rest, r) = set_units_loop s units true ds in (d' ∷ rest, r))
  ]
]

abbrev pub is_some {ℓ} : {A : Type ℓ} → Option A → Bool
is_some none = false
is_some (some a) = true

-- The test after the loop of `SetUnits`.
abbrev pub require_found : Selector → Result Bool → Result (Unit {0})
require_found s (err e) = err e
require_found s (ok found) =
    if is_some s.deployment_version && not found then err deployment_not_found else ok tt

unfoldable pub set_units : Selector → ℤ → App → App × Result (Unit {0})
unfolding set_units_loop
set_units s units app =
    let (ds, r) = set_units_loop s units false app.spec.deployments in
    (with_deployments app ds, require_found s r)

unfoldable pub stop : Selector → App → App × Result (Unit {0})
unfolding set_units
stop s app = set_units s (pos 0) app

-- The test of `Start` on a process, with a process selected and with none.
unfoldable pub is_started : Selector → ProcessSpec → Bool
is_started s p = elim s.process [
  | some process ↦ p.name == process && (elim p.units [ none ↦ true | some u ↦ beq_ℤ u (pos 0) ])
  | none ↦ elim p.units [ none ↦ true | some u ↦ not (ltb_ℤ (pos 1) u) ]
]

-- The inner loops of `Start`: the processes, and whether one was started.
unfoldable pub start_processes : Selector → List ProcessSpec → List ProcessSpec × Bool
unfolding is_started
start_processes s [] = ([], false)
start_processes s (p ∷ ps) =
    let (rest, found) = start_processes s ps in
    if is_started s p then (record p { units = some (pos 1) } ∷ rest, true) else (p ∷ rest, found)

unfoldable pub start_loop : Selector → List AppDeploymentSpec → List AppDeploymentSpec × Bool
unfolding is_skipped start_processes with_processes
start_loop s [] = ([], false)
start_loop s (d ∷ ds) =
    let (rest, found) = start_loop s ds in
    let (ps, started) = start_processes s d.processes in
    if is_skipped s d then (d ∷ rest, found) else (with_processes d ps ∷ rest, started || found)

unfoldable pub start : Selector → App → App × Result (Unit {0})
unfolding start_loop
start s app =
    let (ds, found) = start_loop s app.spec.deployments in
    (
      with_deployments app ds,
      if (is_some s.deployment_version || is_some s.process) && not found
          then err deployment_not_found
          else ok tt,
    )

-- The units that a process counts for; a nil pointer counts for one.
abbrev pub units_of : ProcessSpec → ℤ
units_of p = elim p.units [ none ↦ pos 1 | some u ↦ u ]

unfoldable pub units_of_processes : ℤ → List ProcessSpec → ℤ
units_of_processes n [] = n
units_of_processes n (p ∷ ps) = units_of_processes (add_int n (units_of p)) ps

unfoldable pub units_of_deployments : ℤ → List AppDeploymentSpec → ℤ
unfolding units_of_processes
units_of_deployments n [] = n
units_of_deployments n (d ∷ ds) = units_of_deployments (units_of_processes n d.processes) ds

-- `Units`
unfoldable pub units : App → ℤ
unfolding units_of_deployments
units app = units_of_deployments (pos 0) app.spec.deployments
