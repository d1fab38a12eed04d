-- ===== src/Commands/Env/Laws.antt =====
-- What `ketch env get` shows after `ketch env set` and `ketch env unset`.
use ketch.Base.{
  String, true, List, Option, none, some, Dict, lookup, ok, Error, ◌≡◌, refl, ◌∙◌, arith,
  if◌then◌else◌,
}
use ketch.App.{Env, App}
use ketch.App.Envs.{set_envs, unset_envs, envs_of, is_wanted, has_name}
use ketch.App.Envs.Laws.{
  last_value, or_else, Distinct, lookup-envs_of, last_value-set_envs, last_value-unset_envs,
}
use ketch.Deploy.Getters.{make_environments}
use ketch.Commands.Cname.{Outcome}
use ketch.Commands.Env.{env_set, env_unset, env_get}

-- A command writes an app for which `ketch env get` of the names shows the value of one of them.
pub record Shows (names : List String) (name : String) (value : Option String) (o : Outcome)
    : Type 0 where
  pub after : App
  pub written : o.written ≡ some after
  pub shown : Dict String
  pub got : env_get names (ok after) ≡ ok shown
  pub is_value : lookup name shown ≡ value

module _ (names : List String) (name : String) (app : App) (client : App → Option Error) where
  wanted_value :
      (after : App)
      → is_wanted names name ≡ true
      → lookup name (envs_of names after) ≡ last_value name after.spec.env
  wanted_value after wanted = lookup-envs_of names name after ∙ ground (arith, wanted)

  -- When the texts are variables and the variables of the app have different names, `ketch env set` writes an
  -- app for which `ketch env get` shows, for a name that is asked for, or for any name when none is asked
  -- for, the last value provided for it, or else the value it had.
  pub env_get-env_set :
      (texts : List String) (envs : List Env)
      → make_environments texts ≡ ok envs
      → Distinct app.spec.env
      → is_wanted names name ≡ true
      → Shows names name
          (or_else (last_value name envs) (last_value name app.spec.env))
          (env_set texts (ok app) client)
  unfolding env_set env_get
  env_get-env_set texts envs made distinct wanted = record {
    after = set_envs envs app;
    written = rw (env_set, made) refl;
    shown = envs_of names (set_envs envs app);
    got = refl;
    is_value = wanted_value (set_envs envs app) wanted ∙ last_value-set_envs envs app name distinct;
  }

  -- `ketch env unset` writes an app for which `ketch env get` shows, for a name that is asked for, or for any
  -- name when none is asked for, no value if it was removed, and else the value it had.
  pub env_get-env_unset :
      (removed : List String)
      → is_wanted names name ≡ true
      → Shows names name
          (if has_name removed name then none else last_value name app.spec.env)
          (env_unset removed (ok app) client)
  unfolding env_unset env_get
  env_get-env_unset removed wanted = record {
    after = unset_envs removed app;
    written = refl;
    shown = envs_of names (unset_envs removed app);
    got = refl;
    is_value =
        wanted_value (unset_envs removed app) wanted ∙ last_value-unset_envs removed app name;
  }
