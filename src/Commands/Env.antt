-- ===== src/Commands/Env.antt =====
-- cmd/ketch/env_set.go, env_unset.go and env_get.go.
pub mod Laws
use ketch.Base.{String, List, Option, Dict, Result, ok, err, Error, wrap, ◌>>=◌}
use ketch.App.{App}
use ketch.App.Envs.{set_envs, unset_envs, envs_of}
use ketch.Deploy.Getters.{make_environments}
use ketch.Commands.Cname.{Outcome, failed, update}

-- `envSet`, from what the client's Get answers; an error of it ends the program.
unfoldable pub env_set : List String → Result App → (App → Option Error) → Outcome
unfolding make_environments set_envs
env_set texts get client = elim (make_environments texts) [
  | err e ↦ failed (wrap "failed to get kubernetes client" e)
  | ok envs ↦ elim get [
    | err e ↦ failed (wrap "failed to get the app" e)
    | ok app ↦ update client (set_envs envs app)
  ]
]

-- `envUnset`
unfoldable pub env_unset : List String → Result App → (App → Option Error) → Outcome
unfolding unset_envs
env_unset names get client = elim get [
  | err e ↦ failed (wrap "failed to get the app" e)
  | ok app ↦ update client (unset_envs names app)
]

-- `envGet`, with the variables that it writes
unfoldable pub env_get : List String → Result App → Result (Dict String)
unfolding envs_of
env_get names get = elim get [
  | err e ↦ err (wrap "failed to get the app" e)
  | ok app ↦ ok (envs_of names app)
]
