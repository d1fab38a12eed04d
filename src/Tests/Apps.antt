-- ===== src/Tests/Apps.antt =====
-- The commands on the variables and the units of an app, and the state of its pods.
use ketch.Base.{
  String, List, [], lookup, ◌∷◌, Option, none, some, pos, ok, Error, ◌≡◌, refl, arith,
  if◌then◌else◌,
}
use ketch.App.{App}
use ketch.App.Units.{units}
use ketch.App.Envs.{has_name}
use ketch.App.Envs.Laws.{last_value, or_else}
use ketch.Deploy.Getters.{make_environments}
use ketch.Commands.Env.{env_set, env_unset}
use ketch.Commands.Env.Laws.{Shows, env_get-env_set, env_get-env_unset}
use ketch.Commands.App.{app_start, app_stop}
use ketch.Commands.App.Laws.{whole, app_start-app_stop}
use ketch.Commands.Info.{
  ContainerStatus, AppPod, app_state, filter_pods, filter_app_pods, filter_process_deployment_pods,
}
use ketch.Tests.Envs.{env, settings, settings-Distinct}
use ketch.Tests.Data.{canary_app}

abbrev client : App → Option Error
client app = none

made : make_environments ("A=3" ∷ "C=4" ∷ []) ≡ ok (env "A" "3" ∷ env "C" "4" ∷ [])
unfolding make_environments
made = refl

env_get-env_set_example :
    Shows
      ("A" ∷ [])
      "A"
      (or_else (last_value "A" (env "A" "3" ∷ env "C" "4" ∷ [])) (last_value "A" settings.spec.env))
      (env_set ("A=3" ∷ "C=4" ∷ []) (ok settings) client)
env_get-env_set_example =
    env_get-env_set ("A" ∷ []) "A" settings client ("A=3" ∷ "C=4" ∷ [])
      (env "A" "3" ∷ env "C" "4" ∷ []) made settings-Distinct refl

env_get-env_unset_example :
    Shows [] "A"
      (if has_name ("A" ∷ []) "A" then none else last_value "A" settings.spec.env)
      (env_unset ("A" ∷ []) (ok settings) client)
env_get-env_unset_example = env_get-env_unset [] "A" settings client ("A" ∷ []) refl

app_start-app_stop_example :
    (stopped started : App) × ((app_stop whole (ok canary_app) client).written ≡ some stopped)
    × (units stopped ≡ pos 0)
    × ((app_start whole (ok stopped) client).written ≡ some started)
    × (units started ≡ pos 3)
app_start-app_stop_example = app_start-app_stop canary_app client (omega arith)

abbrev pod : String → List ContainerStatus → AppPod
pod phase statuses = record {
  labels =
      ("theketch.io/app-name", "app1")
      ∷ ("theketch.io/app-deployment-version", "2")
      ∷ ("theketch.io/app-process", "web")
      ∷ [];
  phase = phase;
  container_statuses = statuses;
}

abbrev crashing : ContainerStatus
crashing = record { waiting = some "CrashLoopBackOff"; terminated = none }

abbrev pods : List AppPod
pods = pod "Running" [] ∷ pod "Running" (crashing ∷ []) ∷ pod "Pending" [] ∷ pod "Evicted" [] ∷ []

-- A running pod whose container crashes counts as an error, and so does an unknown phase; only the pods of
-- a process are counted for it.
info_tests :
    (app_state pods ≡ "1 deploying, 1 running, 2 error")
    × (app_state [] ≡ "created")
    × (filter_process_deployment_pods "1" "web" pods ≡ [])
    × (filter_process_deployment_pods "2" "web" pods ≡ pods)
    × (filter_app_pods "app2" pods ≡ [])
unfolding app_state filter_pods lookup
info_tests = (refl, refl, refl, refl, refl)
