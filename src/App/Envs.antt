-- ===== src/App/Envs.antt =====
-- The environment variables of an app in internal/api/v1beta1/app_types.go: `SetEnvs`, `Envs` and
-- `UnsetEnvs`.
pub mod Laws
use ketch.Base.{
  String, Bool, true, false, List, [], ◌∷◌, map, Option, none, some, Dict, lookup, insert, delete,
  ◌==◌, not, any, if◌then◌else◌,
}
use ketch.App.{Env, App}

abbrev pub with_envs : App → List Env → App
with_envs app envs = record app { spec = record app.spec { env = envs } }

-- The map from names to the provided variables.
unfoldable pub names_of : List Env → Dict Env → Dict Env
unfolding insert
names_of [] names = names
names_of (env ∷ envs) names = names_of envs (insert env.name env names)

abbrev pub values {ℓ} : {V : Type ℓ} → Dict V → List V
values [] = []
values ((k, v) ∷ m) = v ∷ values m

-- The loop over the current variables, and the one over the names that are left.
unfoldable pub replace_envs : Dict Env → List Env → List Env
unfolding lookup delete
replace_envs names [] = values names
replace_envs names (env ∷ envs) = elim (lookup env.name names) [
  | some new_env ↦ new_env ∷ replace_envs (delete env.name names) envs
  | none ↦ env ∷ replace_envs names envs
]

unfoldable pub set_envs : List Env → App → App
unfolding names_of replace_envs
set_envs envs app = with_envs app (replace_envs (names_of envs []) app.spec.env)

abbrev pub has_name : List String → String → Bool
has_name names name = any (λ n. n == name) names

abbrev pub is_wanted : List String → String → Bool
is_wanted [] name = true
is_wanted (n ∷ ns) name = has_name (n ∷ ns) name

-- The loop of `Envs`; no names ask for all variables.
unfoldable pub collect_envs : List String → List Env → Dict String → Dict String
unfolding insert
collect_envs names [] envs = envs
collect_envs names (env ∷ rest) envs =
    collect_envs names rest
      (if is_wanted names env.name then insert env.name env.value envs else envs)

-- `Envs`
unfoldable pub envs_of : List String → App → Dict String
unfolding collect_envs
envs_of names app = collect_envs names app.spec.env []

unfoldable pub remove_envs : List String → List Env → List Env
remove_envs names [] = []
remove_envs names (env ∷ envs) =
    let rest = remove_envs names envs in if has_name names env.name then rest else env ∷ rest

unfoldable pub unset_envs : List String → App → App
unfolding remove_envs
unset_envs names app = with_envs app (remove_envs names app.spec.env)
