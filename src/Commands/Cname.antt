-- ===== src/Commands/Cname.antt =====
-- cmd/ketch/cname_add.go, cmd/ketch/cname_remove.go and `ValidateCname` of
-- internal/validation/validation.go.
pub mod Laws
use Prim.Native.Char.{Char, code}
use Prim.Native.String
use ketch.Base.{
  String, Bool, true, false, List, [], ◌∷◌, ◌++◌, Option, none, some, Result, ok, err, Error,
  message, wrap, ◌>>=◌, ◌==◌, ◌&&◌, ◌||◌, not, leb, beq, any, all_chars, if◌then◌else◌,
}
use ketch.App.{Cname, App}

-- net.ParseIP, and the checks of apimachinery: whether a text is an address, a name with a wildcard, a
-- plain name.
pub record Dns : Type 0 where
  pub is_ip : String → Bool
  pub is_wildcard_dns1123_subdomain : String → Bool
  pub is_dns1123_subdomain : String → Bool

-- [a-zA-Z0-9]
abbrev is_alphanumeric : Char → Bool
is_alphanumeric c =
    let n = code c in (leb 97 n && leb n 122) || (leb 65 n && leb n 90) || (leb 48 n && leb n 57)

-- [\w-.]
abbrev is_cname_char : Char → Bool
is_cname_char c = is_alphanumeric c || beq (code c) 95 || beq (code c) 45 || beq (code c) 46

-- [a-zA-Z0-9][\w-.]+
unfoldable pub matches_name : String → Bool
unfolding all_chars
matches_name String.[] = false
matches_name (String.◌∷◌ c String.[]) = false
matches_name (String.◌∷◌ c (String.◌∷◌ d s)) =
    is_alphanumeric c && is_cname_char d && all_chars is_cname_char s

-- ^(\*\.)?[a-zA-Z0-9][\w-.]+$; a name does not begin with a star.
unfoldable pub matches_cname : String → Bool
unfolding matches_name
matches_cname String.[] = false
matches_cname (String.◌∷◌ c String.[]) = false
matches_cname (String.◌∷◌ c (String.◌∷◌ d s)) =
    if beq (code c) 42 && beq (code d) 46
    then matches_name s
    else matches_name (String.◌∷◌ c (String.◌∷◌ d s))

unfoldable pub has_star : String → Bool
has_star String.[] = false
has_star (String.◌∷◌ c s) = beq (code c) 42 || has_star s

-- `ValidateCname`
unfoldable pub validate_cname : Dns → String → Result (Unit {0})
unfolding matches_cname has_star
validate_cname dns cname =
    if not (matches_cname cname)
    then err (message "invalid cname")
    else if dns.is_ip cname
    then err (message "invalid cname: cname must be a DNS name, not an IP address")
    else if has_star cname
    then (if dns.is_wildcard_dns1123_subdomain cname
        then ok tt
        else err (
            message
              "invalid cname: a wildcard cname must start with '*.', followed by a valid DNS subdomain, which must consist of lower case alphanumeric characters, '-' or '.' and end with an alphanumeric character"))
    else if dns.is_dns1123_subdomain cname
    then ok tt
    else err (
        message
          "invalid cname: cname must consist of lower case alphanumeric characters, '-' or '.', and must start and end with an alphanumeric character")

-- The app that a command passes to the client's Update, if it calls it, and what it returns.
pub record Outcome : Type 0 where
  pub written : Option App
  pub result : Result (Unit {0})

abbrev pub failed : Error → Outcome
failed e = record { written = none; result = err e }

-- The client's Update, which may fail.
abbrev pub update : (App → Option Error) → App → Outcome
update client app = record {
  written = some app;
  result = elim (client app) [ none ↦ ok tt | some e ↦ err (wrap "failed to update the app" e) ];
}

abbrev pub with_cnames : List Cname → App → App
with_cnames cnames app = record app {
  spec = record app.spec { ingress = record app.spec.ingress { cnames = cnames } };
}

pub record CnameAddOptions : Type 0 where
  pub cname : String
  pub secure : Bool

abbrev pub has_cname : String → List Cname → Bool
has_cname name cnames = any (λ c. c.name == name) cnames

-- `cnameAdd`, from what the client's Get answers.
unfoldable pub cname_add : Dns → CnameAddOptions → Result App → (App → Option Error) → Outcome
unfolding validate_cname
cname_add dns options get client = elim (validate_cname dns options.cname) [
  | err e ↦ failed e
  | ok _ ↦ elim get [
    | err e ↦ failed (wrap "failed to get the app" e)
    | ok app ↦
        let cnames = app.spec.ingress.cnames in
        if has_cname options.cname cnames
        then record { written = none; result = ok tt }
        else if options.secure && (app.spec.ingress.controller.cluster_issuer == "")
        then failed (message "secure cnames require app.Ingress.Controller.ClusterIssuer to be set")
        else update client (
            with_cnames
              (cnames
                ++ (record { name = options.cname; secure = options.secure; secret_name = "" }
                    ∷ []))
              app)
  ]
]

unfoldable pub without_cname : String → List Cname → List Cname
without_cname name [] = []
without_cname name (c ∷ cs) =
    let rest = without_cname name cs in if c.name == name then rest else c ∷ rest

-- `cnameRemove`, from what the client's Get answers.
unfoldable pub cname_remove : String → Result App → (App → Option Error) → Outcome
unfolding without_cname
cname_remove name get client = elim get [
  | err e ↦ failed (wrap "failed to get the app" e)
  | ok app ↦ update client (with_cnames (without_cname name app.spec.ingress.cnames) app)
]
