-- ===== src/Tests/Run.antt =====
-- A deployment with steps, from its flags to the stored app.
use ketch.App.Units.{set_units, new_selector}
use ketch.Base.{add_int, [], ◌∷◌, none, some, pos, ok, err, message, ◌≡◌, refl, arith, ◌⊎◌}
use ketch.Deploy.Flags.{get_change_set}
use ketch.Deploy.Run.{Services, run}
use ketch.Deploy.Run.Canary.{IsStarted, HasFailed, AsksForSteps, run-IsStarted}
use ketch.App.{App}
use ketch.Controllers.Cancel.{new_cancel_map}
use ketch.Controllers.Canary.Refinement.{Refines, progressing}
use ketch.Controllers.Reconcile.Refinement.{reconciles, reconciles-run}
use ketch.Tests.Watch.{world}
use ketch.Tests.Data.{old}
use ketch.Tests.Deploy.{system, flags, primary_app}

abbrev services : Services
services = record {
  system = system;
  get_error = none;
  write_error = λ w. none;
  get_again_error = none;
  update_error = λ app. none;
  builder = λ request. none;
  image_config = λ request. ok (record {
    labels = [];
    entrypoint = "serve" ∷ [];
    cmd = [];
    exposed_ports = "8080/tcp" ∷ [];
  });
  decode = λ text. err (message "not a metadata");
  claim = λ namespace name. none;
  wait = λ app timeout. none;
  now = pos 1000;
}

abbrev asks : AsksForSteps 4 flags primary_app
unfolding get_change_set
asks = record {
  steps = refl;
  no_processes = refl;
  image_only = refl;
  primary = old;
  deployments = refl;
  weight = refl;
  inactive = refl;
}

run-IsStarted_example :
    IsStarted 4 (pos 3) (run services flags (some primary_app))
    ⊎ HasFailed primary_app (run services flags (some primary_app))
unfolding add_int
run-IsStarted_example =
    run-IsStarted services flags 4 (omega arith) (omega arith) primary_app asks refl

succeeds : (run services flags (some primary_app)).error ≡ none
unfolding run get_change_set set_units new_selector
succeeds = refl

reconciles-run_example :
    (first : App) × ((run services flags (some primary_app)).stored ≡ some first)
    × Refines 4
        (add_int (pos 2) (pos 1))
        (omega arith)
        (omega arith)
        2
        (progressing 0)
        (reconciles first ((world, new_cancel_map) ∷ (world, new_cancel_map) ∷ []))
reconciles-run_example =
    reconciles-run services flags 4 (omega arith) (omega arith) primary_app
      ((world, new_cancel_map) ∷ (world, new_cancel_map) ∷ []) asks refl succeeds
