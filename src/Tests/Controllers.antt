-- ===== src/Tests/Controllers.antt =====
-- Tracked goroutines, the routable process of an image, and the end of a canary.
use ketch.Base.{
  String, List, [], ◌∷◌, some, pos, Result, ok, lookup, ◌≡◌, refl, inl, arith, true, String,
}
use ketch.App.{ProcessSpec, AppDeploymentSpec, App}
use ketch.App.Units.Laws.{find_process}
use ketch.App.Scaling.{is_last, with_weight}
use ketch.App.Canary.{step_stage, do_canary}
use ketch.App.Canary.Finish.{do_canary-finish}
use ketch.Chart.Procfile.{Procfile, ImageConfig, make_procfile}
use ketch.Chart.Procfile.Routable.{make_procfile-routable}
use ketch.Controllers.Cancel.{
  CancelMap, CleanupFunc, new_cancel_map, replace_and_cancel_previous, cleanup,
}
use ketch.Controllers.Cancel.Tracking.{
  start, replace, IsTracked, here, replace_and_cancel_previous-IsTracked,
}
use ketch.Tests.Data.{old, new, two_steps, app_of}

-- The goroutine 1 watches `web` and is replaced by 2, whose map is `second`.
abbrev first : CancelMap × CleanupFunc
first = replace_and_cancel_previous "web" 1 new_cancel_map

abbrev second : CancelMap × CleanupFunc
second = replace_and_cancel_previous "web" 2 first.0

replace_and_cancel_previous-IsTracked_example : IsTracked second.1 (cleanup first.1 second.0)
replace_and_cancel_previous-IsTracked_example =
    replace_and_cancel_previous-IsTracked "web" 2 (replace "web" 1 start) (omega arith) first.1
      (inl refl) here

second-IsTracked : IsTracked second.1 second.0
unfolding replace_and_cancel_previous
second-IsTracked = record { in_map = refl; in_generations = refl }

second_tests : second.0.canceled ≡ 1 ∷ []
unfolding replace_and_cancel_previous
second_tests = refl

abbrev decode : String → Result (List String)
decode metadata = ok ("worker" ∷ "web" ∷ "not a name" ∷ [])

abbrev pack_image : ImageConfig
pack_image = record {
  labels = ("io.buildpacks.build.metadata", "{}") ∷ [];
  entrypoint = [];
  cmd = [];
  exposed_ports = [];
}

abbrev pack_procfile : Procfile
pack_procfile = record {
  processes = ("worker", "worker" ∷ []) ∷ ("web", "web" ∷ []) ∷ [];
  routable_process_name = "web";
}

pack_procfile_lem : make_procfile decode pack_image ≡ ok pack_procfile
unfolding make_procfile
pack_procfile_lem = refl

make_procfile-routable_example :
    (cmd : List String) × (lookup pack_procfile.routable_process_name pack_procfile.processes
      ≡ some cmd)
make_procfile-routable_example =
    make_procfile-routable decode pack_image pack_procfile pack_procfile_lem

-- The second step of two, with `web` scaled by an autoscaler.
abbrev source : AppDeploymentSpec
source = with_weight 50 old

abbrev dest : AppDeploymentSpec
dest = with_weight 50 new

abbrev last_step : App
last_step = app_of (record two_steps { current_step = pos 2 }) (source ∷ dest ∷ [])

do_canary-finish_example :
    (d : AppDeploymentSpec) × (p : ProcessSpec) × ((do_canary last_step
        (pos 100)
        (("web", true) ∷ [])).app.spec.deployments
      ≡ d ∷ [])
    × (find_process "web" d.processes ≡ some p)
    × (p.units ≡ some (pos 4))
unfolding is_last step_stage lookup
do_canary-finish_example =
    do_canary-finish last_step (pos 100) (pos 100) (("web", true) ∷ []) source dest []
      (("web", 4) ∷ []) "web" 4 refl refl refl refl refl refl refl refl
