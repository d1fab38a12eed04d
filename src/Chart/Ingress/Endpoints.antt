-- ===== src/Chart/Ingress/Endpoints.antt =====
-- Every cname of an app has one entry point.
use ketch.Base.{
  String, Bool, List, [], ◌∷◌, ◌++◌, map, none, some, ok, err, message, ◌==◌, ◌&&◌, not, any,
  if◌then◌else◌, ◌≡◌, arith,
}
use ketch.App.{Cname, IngressControllerSpec, App}
use ketch.App.Status.{default_cname}
use ketch.Chart.Ingress.{Ingress, https_endpoint, ingress_loop, new_ingress}

abbrev pub filter {ℓ} : {A : Type ℓ} → (A → Bool) → List A → List A
filter test [] = []
filter test (x ∷ xs) = if test x then x ∷ filter test xs else filter test xs

abbrev pub is_plain : Cname → Bool
is_plain c = not c.secure

-- The entry points of cnames.
abbrev pub endpoints : String → List Cname → Ingress
endpoints app_name cnames = record {
  http = map (λ c. c.name) (filter is_plain cnames);
  https = map (https_endpoint app_name) (filter (λ c. c.secure) cnames);
}

ingress_loop_lem :
    (app_name cluster_issuer : String) (cnames : List Cname)
    → ingress_loop app_name cluster_issuer cnames ≡ (
        if cluster_issuer == "" && any (λ c. c.secure) cnames
        then err (message "secure cnames require a Ingress.ClusterIssuer to be specified")
        else ok (endpoints app_name cnames))
unfolding ingress_loop
ingress_loop_lem app_name cluster_issuer [] = ground arith
ingress_loop_lem app_name cluster_issuer (c ∷ cnames) =
    ground (arith, ingress_loop_lem app_name cluster_issuer cnames)

-- The default cname, as the last plain one.
abbrev pub default_endpoint : App → List String
default_endpoint app = elim (default_cname app) [ none ↦ [] | some name ↦ name ∷ [] ]

-- newIngress fails when a cname is secure and there is no cluster issuer, and in no other case. Else the
-- plain cnames, in their order and then the default one, are the http entry points, and the secure ones
-- the https entry points, each as https_endpoint makes it.
pub new_ingress-endpoints :
    (app : App) (controller : IngressControllerSpec)
    → new_ingress app controller ≡ (
        if controller.cluster_issuer == "" && any (λ c. c.secure) app.spec.ingress.cnames
        then err (message "secure cnames require a Ingress.ClusterIssuer to be specified")
        else ok (record (endpoints app.name app.spec.ingress.cnames) {
          http = (endpoints app.name app.spec.ingress.cnames).http ++ default_endpoint app;
        }))
unfolding new_ingress
new_ingress-endpoints app controller =
    ground (arith, ingress_loop_lem app.name controller.cluster_issuer app.spec.ingress.cnames)
