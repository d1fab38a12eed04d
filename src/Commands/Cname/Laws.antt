-- ===== src/Commands/Cname/Laws.antt =====
-- The cnames that the commands leave in an app.
use ketch.Base.{
  String, Bool, true, false, List, [], ◌∷◌, ◌++◌, Option, none, some, Result, ok, err, Error, ◌==◌,
  ◌&&◌, ◌||◌, not, any, ◌≡◌, refl, ap, arith, eq_iff, inl, inr, ◌⊎◌, Bool-cases,
}
use ketch.App.{Cname, App}
use ketch.Commands.Cname.{
  Dns, CnameAddOptions, has_cname, with_cnames, validate_cname, cname_add, without_cname,
  cname_remove,
}

abbrev pub are_distinct : List Cname → Bool
are_distinct [] = true
are_distinct (c ∷ cs) = not (has_cname c.name cs) && are_distinct cs

-- Whether newIngress has what it needs for the cnames of an app.
abbrev pub has_issuer : App → Bool
has_issuer app = not (
    any (λ c. c.secure) app.spec.ingress.cnames
    && (app.spec.ingress.controller.cluster_issuer == ""))

Result-cases : (r : Result (Unit {0})) → ((e : Error) × (r ≡ err e)) ⊎ (r ≡ ok tt)
Result-cases (err e) = inl (e, refl)
Result-cases (ok u) = inr refl

-- An app that is written, if any.
abbrev pub IsUsable : Option App → Type 0
IsUsable none = Unit
IsUsable (some app) = (are_distinct app.spec.ingress.cnames ≡ true) × (has_issuer app ≡ true)

abbrev pub needs_issuer : CnameAddOptions → App → Bool
needs_issuer options app = options.secure && (app.spec.ingress.controller.cluster_issuer == "")

abbrev asked : CnameAddOptions → Cname
asked options = record { name = options.cname; secure = options.secure; secret_name = "" }

without_cname-append :
    (name : String) (cs : List Cname) (secure : Bool) (secret : String)
    → has_cname name cs ≡ false
    → without_cname name
        (cs ++ (record { name = name; secure = secure; secret_name = secret } ∷ []))
      ≡ cs
unfolding without_cname
without_cname-append name [] secure secret h = ground (arith, eq_iff name name)
without_cname-append name (c ∷ cs) secure secret h =
    ground (arith, h, without_cname-append name cs secure secret)

has_cname-append :
    (name : String) (cs ds : List Cname)
    → has_cname name (cs ++ ds) ≡ has_cname name cs || has_cname name ds
has_cname-append name [] ds = refl
has_cname-append name (c ∷ cs) ds = ground (arith, has_cname-append name cs ds)

are_distinct-append :
    (c : Cname) (cs : List Cname)
    → has_cname c.name cs ≡ false
    → are_distinct cs ≡ true
    → are_distinct (cs ++ (c ∷ [])) ≡ true
are_distinct-append c [] h distinct = refl
are_distinct-append c (d ∷ ds) h distinct = ground (
  arith,
  h,
  distinct,
  has_cname-append d.name ds (c ∷ []),
  eq_iff d.name c.name,
  eq_iff c.name d.name,
  are_distinct-append c ds,
)

any_secure_append :
    (cs : List Cname) (c : Cname)
    → any (λ c. c.secure) (cs ++ (c ∷ [])) ≡ any (λ c. c.secure) cs || c.secure
any_secure_append [] c = ground arith
any_secure_append (d ∷ ds) c = ground (arith, any_secure_append ds c)

-- When the cname is valid, the app does not have it yet and, for a secure one, there is a cluster
-- issuer, `ketch cname add` writes an app from which `ketch cname remove` makes the old one again.
pub cname_remove-cname_add :
    (dns : Dns) (options : CnameAddOptions) (app : App) (client : App → Option Error)
    → validate_cname dns options.cname ≡ ok tt
    → has_cname options.cname app.spec.ingress.cnames ≡ false
    → needs_issuer options app ≡ false
    → (added : App) × ((cname_add dns options (ok app) client).written ≡ some added)
      × ((cname_remove options.cname (ok added) client).written ≡ some app)
unfolding cname_add cname_remove
cname_remove-cname_add dns options app client valid absent issuer = (
  with_cnames (app.spec.ingress.cnames ++ (asked options ∷ [])) app,
  rw (valid, cname_add, absent, issuer) refl,
  ap (λ cs. some (with_cnames cs app))
      (without_cname-append options.cname app.spec.ingress.cnames options.secure "" absent),
)

-- If the cnames of an app are different and it has a cluster issuer or no secure cname, both hold for
-- the app that `ketch cname add` writes, if it writes one, whatever the command is asked for.
pub cname_add_keeps :
    (dns : Dns) (options : CnameAddOptions) (app : App) (client : App → Option Error)
    → are_distinct app.spec.ingress.cnames ≡ true
    → has_issuer app ≡ true
    → IsUsable (cname_add dns options (ok app) client).written
unfolding cname_add
cname_add_keeps dns options app client distinct issuer =
    elim (Result-cases (validate_cname dns options.cname)) [
      | inl (e, invalid) ↦ rw (invalid, IsUsable) tt
      | inr valid ↦ elim (Bool-cases (has_cname options.cname app.spec.ingress.cnames)) [
        | inl there ↦ rw (valid, there, IsUsable) tt
        | inr absent ↦ elim (Bool-cases (needs_issuer options app)) [
          | inl missing ↦ rw (valid, absent, missing, IsUsable) tt
          | inr given ↦
              rw (valid, absent, given, IsUsable)
                (
                  are_distinct-append (asked options) app.spec.ingress.cnames absent distinct,
                  ground (
                    arith,
                    issuer,
                    given,
                    any_secure_append app.spec.ingress.cnames (asked options),
                  ),
                )
        ]
      ]
    ]
