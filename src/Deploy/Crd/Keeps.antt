-- ===== src/Deploy/Crd/Keeps.antt =====
-- Setting units in `updateAppCRD` changes processes and nothing else.
use ketch.Base.{
  String, List, [], ◌∷◌, ℤ, ltb_ℤ, Result, ok, err, ◌≡◌, refl, subst, Pointwise, arith, inl, inr,
  Bool-cases, pos, ◌>>=◌,
}
use ketch.App.{AppDeploymentSpec, App, with_deployments}
use ketch.App.Units.{Selector, new_selector, set_units}
use ketch.App.Units.Laws.{IsUpdated, set_units-IsUpdated}
use ketch.App.Scaling.Frame.{KeepsRest, KeepsRest-refl}
use ketch.Deploy.Crd.{UpdateRequest, with_set_units, apply_units}

-- The apps differ in the processes of their deployments at most.
pub record AppKeeps (app app' : App) : Type 0 where
  pub rest : app' ≡ with_deployments app app'.spec.deployments
  pub deployments : Pointwise KeepsRest app.spec.deployments app'.spec.deployments

Pointwise-refl : (ds : List AppDeploymentSpec) → Pointwise KeepsRest ds ds
Pointwise-refl [] = tt
Pointwise-refl (d ∷ ds) = (KeepsRest-refl d, Pointwise-refl ds)

IsUpdated-KeepsRest :
    (s : Selector) (units : ℤ) (ds ds' : List AppDeploymentSpec)
    → Pointwise (IsUpdated s units) ds ds'
    → Pointwise KeepsRest ds ds'
IsUpdated-KeepsRest s units [] [] h = tt
IsUpdated-KeepsRest s units [] (d' ∷ ds') h = h
IsUpdated-KeepsRest s units (d ∷ ds) [] h = h
IsUpdated-KeepsRest s units (d ∷ ds) (d' ∷ ds') (h, hs) =
    (h.rest, IsUpdated-KeepsRest s units ds ds' hs)

pub with_set_units-ok :
    (version : ℤ) (process : String) (units : ℤ) (app app' : App)
    → with_set_units version process units app ≡ ok app'
    → ((set_units (new_selector version process) units app).0 ≡ app')
      × ((set_units (new_selector version process) units app).1 ≡ ok tt)
with_set_units-ok version process units app app' h =
    go (set_units (new_selector version process) units app).1 h
  where
    go :
        (r : Result (Unit {0}))
        → (r >>= λ done. ok (set_units (new_selector version process) units app).0) ≡ ok app'
        → ((set_units (new_selector version process) units app).0 ≡ app') × (r ≡ ok tt)
    go (ok tt) e = (cc, refl)
    go (err x) e = cc

pub set_units-AppKeeps :
    (s : Selector) (units : ℤ) (app : App)
    → (set_units s units app).1 ≡ ok tt
    → AppKeeps app (set_units s units app).0
unfolding set_units
set_units-AppKeeps s units app h = record {
  rest = refl;
  deployments = IsUpdated-KeepsRest s units _ _ (set_units-IsUpdated s units app h);
}

pub apply_units-AppKeeps :
    (args : UpdateRequest) (app app' : App) → apply_units args app ≡ ok app' → AppKeeps app app'
unfolding apply_units
apply_units-AppKeeps args app app' h = elim (Bool-cases (ltb_ℤ (pos 0) args.units)) [
  | inl more ↦
      let (e, r) =
        with_set_units-ok args.version args.process args.units app app' (ground (arith, h)) in
      subst (AppKeeps app) e
        (set_units-AppKeeps (new_selector args.version args.process) args.units app r)
  | inr few ↦
      let e : app ≡ app' = ground (arith, h) in
      subst (AppKeeps app) e
        (record { rest = refl; deployments = Pointwise-refl app.spec.deployments })
]
