-- ===== src/Tests/Units.antt =====
-- `SetUnits`, `Stop` and `Start` on the test app.
use ketch.Base.{
  some, pos, ok, err, deployment_not_found, process_not_found, ◌≡◌, refl, arith, add_int, eq_iff,
  Pointwise,
}
use ketch.App.Units.{Selector, new_selector, set_units, start, units}
use ketch.App.Units.Laws.{IsUpdated, outcome, set_units-outcome, set_units-IsUpdated}
use ketch.App.Units.Starting.{AreRaised, start-AreRaised, start_running}
use ketch.Tests.Data.{canary_app}

abbrev web : Selector
web = record { process = some "web"; deployment_version = some (pos 2) }

set_units-web : (set_units web (pos 5) canary_app).1 ≡ ok tt
unfolding set_units
set_units-web = refl

set_units_tests :
    (units (set_units web (pos 5) canary_app).0 ≡ pos 9)
    × ((set_units (new_selector (pos 7) "") (pos 5) canary_app).1 ≡ err deployment_not_found)
    × ((set_units (new_selector (pos 0) "worker") (pos 5) canary_app).1 ≡ err process_not_found)
    × (units (set_units (new_selector (pos 0) "worker") (pos 5) canary_app).0 ≡ pos 9)
unfolding set_units units new_selector add_int
set_units_tests = (refl, refl, refl, refl)

set_units-outcome_example :
    (set_units web (pos 5) canary_app).1 ≡ outcome web canary_app.spec.deployments
set_units-outcome_example = set_units-outcome web (pos 5) canary_app

set_units-IsUpdated_example :
    Pointwise
      (IsUpdated web (pos 5))
      canary_app.spec.deployments
      (set_units web (pos 5) canary_app).0.spec.deployments
set_units-IsUpdated_example = set_units-IsUpdated web (pos 5) canary_app set_units-web

start-AreRaised_example :
    Pointwise AreRaised canary_app.spec.deployments (start web canary_app).0.spec.deployments
start-AreRaised_example = start-AreRaised web canary_app

start_running_example : start web canary_app ≡ (canary_app, err deployment_not_found)
start_running_example = start_running web "web" canary_app refl (
  (
    (λ e. (pos 3, refl, λ h. ground arith)),
    ((λ e. absurd (ground (arith, eq_iff "worker" "web"))), tt),
  ),
  (((λ e. (pos 1, refl, λ h. ground arith)), tt), tt),
)
