-- ===== src/Commands/App/Laws.antt =====
-- `ketch app stop` and `ketch app start` of a whole app.
use Prim.Native.Nat.{◌<◌, ◌^◌}
use ketch.Base.{String, err, Option, some, pos, ok, Result, Error, ◌≡◌, refl}
use ketch.App.{App}
use ketch.App.Units.{new_selector, units, start, stop}
use ketch.App.Units.Lifecycle.{everything, count_processes, units-stop, units-start-stop}
use ketch.Commands.App.{SelectOptions, update_changed, app_start, app_stop}

-- No process and no version is selected.
abbrev pub whole : SelectOptions
whole = record { process_name = ""; deployment_version = pos 0 }

new_selector-whole : new_selector whole.deployment_version whole.process_name ≡ everything
unfolding new_selector
new_selector-whole = refl

update_changed-written :
    (text : String) (client : App → Option Error) (app : App) (r : Result (Unit {0}))
    → r ≡ ok tt
    → (update_changed text client (app, r)).written ≡ some app
update_changed-written text client app (err e) h = cc
update_changed-written text client app (ok _) h = refl

-- `ketch app stop` of a whole app with fewer than 2 ^ 63 processes writes an app without a unit, and `ketch
-- app start` of it writes an app with as many units as processes.
pub app_start-app_stop :
    (app : App) (client : App → Option Error)
    → count_processes app.spec.deployments < 2 ^ 63
    → (stopped started : App) × ((app_stop whole (ok app) client).written ≡ some stopped)
      × (units stopped ≡ pos 0)
      × ((app_start whole (ok stopped) client).written ≡ some started)
      × (units started ≡ pos (count_processes app.spec.deployments))
unfolding app_stop app_start new_selector
app_start-app_stop app client small =
    let (stops, none_left) = units-stop app in
    let (starts, as_many) = units-start-stop app small in
    let stopped = (stop everything app).0 in
    (
      stopped,
      (start everything stopped).0,
      update_changed-written "failed to stop app" client stopped _ stops,
      none_left,
      update_changed-written "failed to start app" client (start everything stopped).0 _ starts,
      as_many,
    )
