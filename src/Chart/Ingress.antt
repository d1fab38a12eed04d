-- ===== src/Chart/Ingress.antt =====
-- internal/chart/ingress.go: the entry points of an app.
pub mod Endpoints
use Prim.Native.Char.{Char, code}
use Prim.Native.String
use ketch.Base.{
  String, Bool, true, false, List, [], ◌∷◌, ◌++◌, Option, none, some, Result, ok, err, message,
  ◌>>=◌, ◌==◌, ◌&&◌, ◌||◌, not, leb, if◌then◌else◌, concat,
}
use ketch.App.{Cname, IngressControllerSpec, App}
use ketch.App.Status.{default_cname}

-- `sslCertificateManager`
pub data SslCertificateManager : Type 0 where
  user cert_manager : SslCertificateManager

pub record HttpsEndpoint : Type 0 where
  pub unique_name : String
  pub cname : String
  pub secret_name : String
  pub managed_by : SslCertificateManager

pub record Ingress : Type 0 where
  pub http : List String
  pub https : List HttpsEndpoint

abbrev is_kept : Char → Bool
is_kept c = let n = code c in (leb 97 n && leb n 122) || (leb 48 n && leb n 57)

-- The replacement of every run of [^a-z0-9] by a dash; the flag is for the middle of a run.
unfoldable pub strip_from : Bool → String → String
strip_from in_run String.[] = ""
strip_from in_run (String.◌∷◌ c s) = elim (is_kept c) [
  | true ↦ String.◌∷◌ c (strip_from false s)
  | false ↦ elim in_run [ true ↦ strip_from true s | false ↦ String.◌∷◌ "-" (strip_from true s) ]
]

abbrev pub strip_cname : String → String
strip_cname name = strip_from false name

-- The endpoint of a secure cname.
unfoldable pub https_endpoint : String → Cname → HttpsEndpoint
unfolding strip_from
https_endpoint app_name cname =
    let stripped = strip_cname cname.name in
    let unique = concat (app_name ∷ "-https-" ∷ stripped ∷ []) in
    if cname.secret_name == ""
    then record {
      cname = cname.name;
      secret_name = concat (app_name ∷ "-cname-" ∷ stripped ∷ []);
      unique_name = unique;
      managed_by = cert_manager;
    }
    else record {
      cname = cname.name;
      secret_name = cname.secret_name;
      unique_name = unique;
      managed_by = user;
    }

-- The loop over the cnames: the entry points of those that are left in front of the others.
unfoldable pub ingress_loop : String → String → List Cname → Result Ingress
unfolding https_endpoint
ingress_loop app_name cluster_issuer [] = ok (record { http = []; https = [] })
ingress_loop app_name cluster_issuer (cname ∷ cnames) =
    let rest = ingress_loop app_name cluster_issuer cnames in
    if not cname.secure
    then (rest >>= λ i. ok (record { http = cname.name ∷ i.http; https = i.https }))
    else if cluster_issuer == ""
    then err (message "secure cnames require a Ingress.ClusterIssuer to be specified")
    else (rest >>= λ i.
        ok (record { http = i.http; https = https_endpoint app_name cname ∷ i.https }))

-- `newIngress`
unfoldable pub new_ingress : App → IngressControllerSpec → Result Ingress
unfolding ingress_loop default_cname
new_ingress app controller =
    ingress_loop app.name controller.cluster_issuer app.spec.ingress.cnames >>= λ i. ok (record {
      http = i.http ++ (elim (default_cname app) [ none ↦ [] | some name ↦ name ∷ [] ]);
      https = i.https;
    })
