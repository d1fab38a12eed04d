-- ===== src/App/Units/Laws.antt =====
-- What `SetUnits` changes, and how it ends.
use ketch.Base.{
  String, Bool, true, false, List, [], ◌∷◌, map, Option, none, some, ℤ, ◌≡◌, refl, Result, ok, err,
  process_not_found, deployment_not_found, ◌==◌, ◌&&◌, ◌||◌, not, if◌then◌else◌, any, Pointwise,
  All, ◌++◌, ap, arith, inl, inr, eq_iff, Bool-cases, Option-cases,
}
use ketch.App.{ProcessSpec, AppDeploymentSpec, App}
use ketch.App.Units.{
  Selector, with_units, set_process_units, with_processes, set_units_of, set_units_for_all_process,
  is_skipped, update_units, set_units_loop, is_some, set_units,
}

-- The process that a name stands for: the first of that name.
abbrev pub find_process : String → List ProcessSpec → Option ProcessSpec
find_process name [] = none
find_process name (p ∷ ps) = if p.name == name then some p else find_process name ps

abbrev pub selects : Selector → String → Bool
selects s name = elim s.process [ none ↦ true | some process ↦ process == name ]

-- The first process of the name has the new units, and every other process is as it was and in its place.
pub record IsFirstUpdated (name : String) (units : ℤ) (ps ps' : List ProcessSpec) : Type 0 where
  pub before : List ProcessSpec
  pub process : ProcessSpec
  pub behind : List ProcessSpec
  pub old : ps ≡ before ++ (process ∷ behind)
  pub others : All (λ p. (p.name == name) ≡ false) before
  pub named : process.name ≡ name
  pub new : ps' ≡ before ++ (record process { units = some units } ∷ behind)

-- What a successful `SetUnits` makes of the processes of a deployment: nothing of those of a deployment that
-- it skips, else the new units for all of them, or for the first of the name that is selected.
abbrev pub AreUpdated : Bool → Option String → ℤ → List ProcessSpec → List ProcessSpec → Type 0
AreUpdated true process units ps ps' = ps' ≡ ps
AreUpdated false none units ps ps' =
    ps' ≡ map (λ (p : ProcessSpec). record p { units = some units }) ps
AreUpdated false (some name) units ps ps' = IsFirstUpdated name units ps ps'

-- The other fields of the deployment are as they were.
pub record IsUpdated (s : Selector) (units : ℤ) (d d' : AppDeploymentSpec) : Type 0 where
  pub rest : d' ≡ with_processes d d'.processes
  pub processes : AreUpdated (is_skipped s d) s.process units d.processes d'.processes

-- The list that `setUnits` leaves when it finds the process.
set_first : String → ℤ → List ProcessSpec → List ProcessSpec
set_first process units [] = []
set_first process units (p ∷ ps) =
    if p.name == process then with_units units p ∷ ps else p ∷ set_first process units ps

abbrev found_or_err : List ProcessSpec → Option ProcessSpec → Result (List ProcessSpec)
found_or_err ps none = err process_not_found
found_or_err ps (some p) = ok ps

set_process_units_lem :
    (process : String) (units : ℤ) (ps : List ProcessSpec)
    → set_process_units process units ps
      ≡ found_or_err (set_first process units ps) (find_process process ps)
unfolding set_process_units set_first
set_process_units_lem process units [] = refl
set_process_units_lem process units (p ∷ ps) =
    ground (arith, set_process_units_lem process units ps)

set_first-IsFirstUpdated :
    (name : String) (units : ℤ) (ps : List ProcessSpec)
    → is_some (find_process name ps) ≡ true
    → IsFirstUpdated name units ps (set_first name units ps)
unfolding set_first
set_first-IsFirstUpdated name units [] h = cc
set_first-IsFirstUpdated name units (p ∷ ps) h = elim (Bool-cases (p.name == name)) [
  | inl same ↦ record {
    before = [];
    process = p;
    behind = ps;
    old = refl;
    others = tt;
    named = (eq_iff p.name name).0 same;
    new = ground (arith, same);
  }
  | inr differ ↦
      (let rest = set_first-IsFirstUpdated name units ps (ground (arith, h, differ)) in
        record {
          before = p ∷ rest.before;
          process = rest.process;
          behind = rest.behind;
          old = ap (◌∷◌ p) rest.old;
          others = (differ, rest.others);
          named = rest.named;
          new = ground (arith, differ, rest.new);
        })
]

-- A deployment that the selector reaches and that has no process of the selected name.
abbrev pub lacks : Selector → AppDeploymentSpec → Bool
lacks s d = elim s.process [
  | none ↦ false
  | some process ↦ not (is_skipped s d) && not (is_some (find_process process d.processes))
]

-- The deployment that the loop leaves when the selected process is there.
updated : Selector → ℤ → AppDeploymentSpec → AppDeploymentSpec
updated s units d = elim s.process [
  | none ↦ set_units_for_all_process units d
  | some process ↦ with_processes d (set_first process units d.processes)
]

update_units_lem :
    (s : Selector) (units : ℤ) (d : AppDeploymentSpec)
    → is_skipped s d ≡ false
    → update_units s units d ≡ (if lacks s d then err process_not_found else ok (updated s units d))
unfolding update_units set_units_of updated
update_units_lem s units d k = elim (Option-cases s.process) [
  | inl e ↦ rw (e, lacks, update_units, updated) refl
  | inr (process, e) ↦
      rw (e, lacks, update_units, updated)
        (ground (arith, set_process_units_lem process units d.processes))
]

updated-IsUpdated :
    (s : Selector) (units : ℤ) (d : AppDeploymentSpec)
    → is_skipped s d ≡ false
    → lacks s d ≡ false
    → IsUpdated s units d (updated s units d)
unfolding updated set_units_for_all_process with_processes
updated-IsUpdated s units d k there = elim (Option-cases s.process) [
  | inl e ↦ record { rest = rw (e, updated) refl; processes = rw (k, e, updated) refl }
  | inr (process, e) ↦ record {
    rest = rw (e, updated) refl;
    processes =
        rw (k, e, updated)
          (set_first-IsFirstUpdated process units d.processes (ground (arith, there, e, k)));
  }
]

IsUpdated-skipped :
    (s : Selector) (units : ℤ) (d : AppDeploymentSpec)
    → is_skipped s d ≡ true
    → IsUpdated s units d d
unfolding with_processes
IsUpdated-skipped s units d k = record { rest = refl; processes = rw k refl }

-- How `SetUnits` ends: it stops at the first deployment that lacks the process; else it wants a
-- deployment of the selected version.
abbrev pub outcome : Selector → List AppDeploymentSpec → Result (Unit {0})
outcome s ds =
    if any (lacks s) ds
    then err process_not_found
    else if is_some s.deployment_version && not (any (λ d. not (is_skipped s d)) ds)
    then err deployment_not_found
    else ok tt

set_units_loop_outcome :
    (s : Selector) (units : ℤ) (found : Bool) (ds : List AppDeploymentSpec)
    → (set_units_loop s units found ds).1 ≡ (
        if any (lacks s) ds
        then err process_not_found
        else ok (found || any (λ d. not (is_skipped s d)) ds))
unfolding set_units_loop
set_units_loop_outcome s units found [] = ground arith
set_units_loop_outcome s units found (d ∷ ds) = ground (
  arith,
  set_units_loop_outcome s units found ds,
  set_units_loop_outcome s units true ds,
  update_units_lem s units d,
)

-- How `SetUnits` ends, on every branch.
pub set_units-outcome :
    (s : Selector) (units : ℤ) (app : App)
    → (set_units s units app).1 ≡ outcome s app.spec.deployments
unfolding set_units
set_units-outcome s units app =
    ground (arith, set_units_loop_outcome s units false app.spec.deployments)

set_units_loop-IsUpdated :
    (s : Selector) (units : ℤ) (found : Bool) (ds : List AppDeploymentSpec)
    → any (lacks s) ds ≡ false
    → Pointwise (IsUpdated s units) ds (set_units_loop s units found ds).0
unfolding set_units_loop
set_units_loop-IsUpdated s units found [] h = tt
set_units_loop-IsUpdated s units found (d ∷ ds) h = elim (Bool-cases (is_skipped s d)) [
  | inl k ↦
      rw (k, set_units_loop)
        (IsUpdated-skipped s units d k, set_units_loop-IsUpdated s units found ds (ground arith))
  | inr k ↦
      let e : update_units s units d ≡ ok (updated s units d) =
        ground (arith, update_units_lem s units d k) in
      rw (k, set_units_loop, e)
        (
          updated-IsUpdated s units d k (ground arith),
          set_units_loop-IsUpdated s units true ds (ground arith),
        )
]

-- When `SetUnits` succeeds, in every deployment that the selector reaches the first process of the selected
-- name, or each process when none is selected, has the new units, and every other process, in its place, every
-- other field and every other deployment is unchanged.
pub set_units-IsUpdated :
    (s : Selector) (units : ℤ) (app : App)
    → (set_units s units app).1 ≡ ok tt
    → Pointwise (IsUpdated s units) app.spec.deployments (set_units s units app).0.spec.deployments
unfolding set_units
set_units-IsUpdated s units app h =
    set_units_loop-IsUpdated s units false app.spec.deployments
      (ground (arith, set_units_loop_outcome s units false app.spec.deployments))
