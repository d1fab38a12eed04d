-- ===== src/Deploy/Yaml/Latest.antt =====
-- `getLatestDeployment` finds a deployment with the highest version.
use ketch.Base.{List, [], ◌∷◌, some, ltb_ℤ, ◌≤ℤ◌, ◌≡◌, refl, ◌⊎◌, inl, inr, All, arith, Bool-cases}
use ketch.App.{AppDeploymentSpec}
use ketch.Deploy.Yaml.{latest_loop, get_latest_deployment}

-- The deployment is one of the list.
abbrev pub Among : AppDeploymentSpec → List AppDeploymentSpec → Type 0
Among d [] = ⊥
Among d (e ∷ es) = (d ≡ e) ⊎ Among d es

-- The deployment is the given one or one of the list, and no other has a higher version.
pub record IsLatest (d : AppDeploymentSpec) (first : AppDeploymentSpec)
    (ds : List AppDeploymentSpec) : Type 0 where
  pub among : Among d (first ∷ ds)
  pub first_older : first.version ≤ℤ d.version
  pub older : All (λ e. e.version ≤ℤ d.version) ds

latest_loop-IsLatest :
    (passed : List AppDeploymentSpec) (latest : AppDeploymentSpec) (ds : List AppDeploymentSpec)
    → IsLatest (latest_loop passed latest ds).1 latest ds
unfolding latest_loop
latest_loop-IsLatest passed latest [] = record {
  among = inl refl;
  first_older = omega arith;
  older = tt;
}
latest_loop-IsLatest passed latest (d ∷ ds) = elim (Bool-cases (ltb_ℤ latest.version d.version)) [
  | inl newer ↦
      let p = latest_loop-IsLatest (record latest { version = d.version } ∷ passed) d ds in
      rw (newer, latest_loop)
        (record {
          among = inr p.among;
          first_older = ground (arith, p.first_older, newer);
          older = (p.first_older, p.older);
        })
  | inr older ↦
      let p = latest_loop-IsLatest (d ∷ passed) latest ds in
      rw (older, latest_loop)
        (record {
          among = elim p.among [ inl e ↦ inl e | inr a ↦ inr (inr a) ];
          first_older = p.first_older;
          older = (ground (arith, p.first_older, older), p.older);
        })
]

pub get_latest_deployment-IsLatest :
    (first : AppDeploymentSpec) (ds : List AppDeploymentSpec)
    → (d : AppDeploymentSpec) × (get_latest_deployment (first ∷ ds) ≡ some d) × IsLatest d first ds
unfolding get_latest_deployment
get_latest_deployment-IsLatest first ds = (_, refl, latest_loop-IsLatest [] first ds)
