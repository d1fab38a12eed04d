-- ===== src/App/Status.antt =====
-- The conditions and the phase of an app, and its names, in internal/api/v1beta1/app_types.go:
-- `SetCondition`, `Condition`, `Phase`, `CNames` and `DefaultCname`; and ingress.go.
pub mod Laws
use ketch.Base.{
  String, Bool, true, false, List, [], ◌∷◌, ◌++◌, map, Option, none, some, pos, beq_ℤ, Dict, lookup,
  ◌==◌, ◌&&◌, not, concat, if◌then◌else◌,
}
use ketch.App.{
  Time, Cname, ConditionStatus, condition_true, condition_false, condition_unknown, Condition,
  AppStatus, AppPhase, app_created, app_error, app_running, IngressControllerSpec, App,
}
use ketch.App.Units.{units}

abbrev pub same_status : ConditionStatus → ConditionStatus → Bool
same_status condition_true condition_true = true
same_status condition_false condition_false = true
same_status condition_unknown condition_unknown = true
same_status _ _ = false

-- The loop of `SetCondition`, and the append after it.
unfoldable pub set_in : Condition → List Condition → List Condition
set_in c [] = c ∷ []
set_in c (cond ∷ conds) =
    let rest = set_in c conds in
    if cond.type == c.type
    then (if same_status cond.status c.status && cond.message == c.message
        then cond ∷ conds
        else c ∷ conds)
    else cond ∷ rest

unfoldable pub set_condition : String → ConditionStatus → String → Time → App → App
unfolding set_in
set_condition t status message time app =
    let c : Condition = record {
      type = t;
      status = status;
      last_transition_time = some time;
      message = message;
    } in
    record app { status = record app.status { conditions = set_in c app.status.conditions } }

unfoldable pub find_condition : String → List Condition → Option Condition
find_condition t [] = none
find_condition t (c ∷ cs) = if c.type == t then some c else find_condition t cs

-- `AppStatus.Condition`
unfoldable pub condition : String → AppStatus → Option Condition
unfolding find_condition
condition t s = find_condition t s.conditions

unfoldable pub any_false : List Condition → Bool
any_false [] = false
any_false (c ∷ cs) = elim c.status [ condition_false ↦ true | _ ↦ any_false cs ]

unfoldable pub phase : App → AppPhase
unfolding any_false units
phase app =
    if any_false app.status.conditions
    then app_error
    else if beq_ℤ (units app) (pos 0)
    then app_created
    else app_running

-- `ShipaCloudDomain`
abbrev pub shipa_cloud_domain : String
shipa_cloud_domain = "shipa.cloud"

unfoldable pub default_cname : App → Option String
default_cname app =
    let ingress = app.spec.ingress in
    if not ingress.generate_default_cname
    then none
    else if ingress.controller.service_endpoint == ""
    then none
    else some (
        concat
          (app.name ∷ "." ∷ ingress.controller.service_endpoint ∷ "." ∷ shipa_cloud_domain ∷ []))

unfoldable pub cname_url : Cname → String
cname_url c = concat ((if c.secure then "https" else "http") ∷ "://" ∷ c.name ∷ [])

-- `CNames`
unfoldable pub cnames_of : App → List String
unfolding default_cname cname_url
cnames_of app =
    (elim (default_cname app) [ none ↦ [] | some name ↦ concat ("http://" ∷ name ∷ []) ∷ [] ])
    ++ map cname_url app.spec.ingress.cnames

abbrev text_at : String → Dict String → String
text_at key m = elim (lookup key m) [ none ↦ "" | some t ↦ t ]

-- `NewIngressControllerSpec` of the configmap's data.
unfoldable pub new_ingress_controller_spec : Dict String → IngressControllerSpec
unfolding lookup
new_ingress_controller_spec m =
    let type = text_at "type" m in
    record {
      class_name = text_at "className" m;
      service_endpoint = text_at "serviceEndpoint" m;
      ingress_type = if type == "" then text_at "ingressType" m else type;
      cluster_issuer = text_at "clusterIssuer" m;
    }
