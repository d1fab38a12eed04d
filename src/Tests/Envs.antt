-- ===== src/Tests/Envs.antt =====
-- Environment variables and conditions of an app.
use ketch.Base.{String, List, [], ◌∷◌, some, pos, ◌≡◌, refl, ◌==◌, if◌then◌else◌}
use ketch.App.{Env, App, condition_true}
use ketch.App.Envs.{set_envs}
use ketch.App.Envs.Laws.{last_value, Distinct}
use ketch.App.Status.{condition, set_condition}
use ketch.App.Status.Laws.{after_set, condition-set_condition}
use ketch.Tests.Data.{canary_app}

abbrev pub env : String → String → Env
env name value = record { name = name; value = value }

abbrev app_with : List Env → App
app_with envs = record canary_app { spec = record canary_app.spec { env = envs } }

abbrev pub settings : App
settings = app_with (env "A" "1" ∷ env "B" "2" ∷ [])

pub settings-Distinct : Distinct settings.spec.env
settings-Distinct = (refl, (refl, tt))

-- With a name twice among the variables the old value stays the one that counts.
envs_tests :
    last_value "A"
      (set_envs (env "A" "3" ∷ []) (app_with (env "A" "1" ∷ env "A" "2" ∷ []))).spec.env
    ≡ some "2"
unfolding set_envs
envs_tests = refl

condition-set_condition_example :
    condition "Ready" (set_condition "Ready" condition_true "up" (pos 7) canary_app).status ≡ (
      if "Ready" == "Ready"
      then some (
          after_set
            (record {
              type = "Ready";
              status = condition_true;
              last_transition_time = some (pos 7);
              message = "up";
            })
            (condition "Ready" canary_app.status))
      else condition "Ready" canary_app.status)
condition-set_condition_example =
    condition-set_condition "Ready" "Ready" condition_true "up" (pos 7) canary_app
