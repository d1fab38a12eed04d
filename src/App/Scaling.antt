-- ===== src/App/Scaling.antt =====
-- How a canary step of internal/api/v1beta1/app_types.go changes the weights and the units of the two
-- deployments: `getUpdatedUnits` and the loops of `DoCanary` over processes.
pub mod Split
pub mod Frame
use ketch.Base.{
  ℕ, ◌+◌, ◌-◌, ◌%◌, String, Bool, true, false, List, [], ◌∷◌, map, Option, none, some, ℤ, pos,
  beq_ℤ, ltb, leb, beq, div_float, mul_float, floor, Dict, lookup, ok, err, ◌||◌, if◌then◌else◌,
}
use ketch.App.{ProcessSpec, AppDeploymentSpec, RoutingSettings, CanarySpec}
use ketch.App.Units.{with_units, with_processes, set_units_of}

-- The source and the destination units, in `uint16` up to the conversion to `int`.
unfoldable pub get_updated_units : ℕ → ℕ → ℤ × ℤ
get_updated_units weight target_units =
    let weight' = if ltb 100 weight then 100 else weight in
    let unit_split = floor (mul_float (div_float weight' 100) target_units) in
    let dest_units = (target_units + 65536 - unit_split % 65536) % 65536 in
    if beq target_units dest_units
    then (pos 1, pos dest_units)
    else (pos ((target_units + 65536 - dest_units) % 65536), pos dest_units)

abbrev pub with_weight : ℕ → AppDeploymentSpec → AppDeploymentSpec
with_weight w d = record d { routing_settings = record { weight = w } }

-- The two weights after a step, in `uint8`.
abbrev pub lower : ℕ → AppDeploymentSpec → AppDeploymentSpec
lower step_weight d = with_weight ((d.routing_settings.weight + 256 - step_weight) % 256) d

abbrev pub raise : ℕ → AppDeploymentSpec → AppDeploymentSpec
raise step_weight d = with_weight ((d.routing_settings.weight + step_weight) % 256) d

-- `setUnits` with its error ignored.
unfoldable pub set_or_keep : String → ℤ → AppDeploymentSpec → AppDeploymentSpec
set_or_keep process units d = elim (set_units_of process units d) [ ok d' ↦ d' | err e ↦ d ]

-- The two deployments while a step works on them.
pub record Stage : Type 0 where
  pub source : AppDeploymentSpec
  pub dest : AppDeploymentSpec

-- The body of the loop over the target map, for a process that is no target of an autoscaler.
unfoldable pub scale_process : String → ℕ → Stage → Stage
unfolding set_or_keep
scale_process process target s =
    let (p1_units, p2_units) = get_updated_units s.source.routing_settings.weight target in
    record {
      source = set_or_keep process p1_units s.source;
      dest = set_or_keep process p2_units s.dest;
    }

unfoldable pub scale_targets : Dict Bool → Dict ℕ → Stage → Stage
unfolding scale_process
scale_targets disabled [] s = s
scale_targets disabled ((process, target) ∷ targets) s =
    scale_targets disabled targets
      (elim (lookup process disabled) [ some _ ↦ s | none ↦ scale_process process target s ])

-- The loop over the processes of the updated deployment that are not in the target map. It runs
-- over the names: nothing in it changes them.
unfoldable pub fill_missing : Dict ℕ → List ProcessSpec → AppDeploymentSpec → AppDeploymentSpec
unfolding set_or_keep
fill_missing targets [] d = d
fill_missing targets (p ∷ ps) d =
    fill_missing targets ps
      (elim (lookup p.name targets) [ some _ ↦ d | none ↦ set_or_keep p.name (pos 1) d ])

-- The units of both deployments after a step; a nil map leaves them.
unfoldable pub scale : Dict Bool → Option (Dict ℕ) → Stage → Stage
unfolding scale_targets fill_missing
scale disabled none s = s
scale disabled (some targets) s =
    let s' = scale_targets disabled targets s in
    record s' { dest = fill_missing targets s'.dest.processes s'.dest }

-- The loop of the last step: the target units for every process that has them.
unfoldable pub finish_process : Option (Dict ℕ) → ProcessSpec → ProcessSpec
finish_process none p = p
finish_process (some targets) p = elim (lookup p.name targets) [
  | none ↦ p
  | some target ↦ with_units (pos target) p
]

unfoldable pub finish_dest : CanarySpec → AppDeploymentSpec → AppDeploymentSpec
unfolding finish_process with_processes
finish_dest canary d =
    with_weight 100 (with_processes d (map (finish_process canary.target) d.processes))

-- Whether a step is the last one.
unfoldable pub is_last : CanarySpec → AppDeploymentSpec → Bool
is_last canary dest = leb 100 dest.routing_settings.weight || beq_ℤ canary.current_step canary.steps
