-- ===== src/Tests/Commands.antt =====
-- A cname that is added and removed again.
use ketch.Base.{true, false, none, some, ok, ◌≡◌, refl}
use ketch.App.{App}
use ketch.Commands.Cname.{
  Dns, CnameAddOptions, matches_cname, validate_cname, cname_add, cname_remove,
}
use ketch.Commands.Cname.Laws.{IsUsable, cname_remove-cname_add, cname_add_keeps}
use ketch.Tests.Data.{canary_app}

abbrev dns : Dns
dns = record {
  is_ip = λ name. false;
  is_wildcard_dns1123_subdomain = λ name. true;
  is_dns1123_subdomain = λ name. true;
}

abbrev options : CnameAddOptions
options = record { cname = "a.com"; secure = false }

matches_cname_tests :
    (matches_cname "*.a.com" ≡ true)
    × (matches_cname "*a.com" ≡ false)
    × (matches_cname "a" ≡ false)
    × (matches_cname "-ab" ≡ false)
    × (matches_cname "a_b-c.com" ≡ true)
unfolding matches_cname
matches_cname_tests = (refl, refl, refl, refl, refl)

valid_options : validate_cname dns options.cname ≡ ok tt
unfolding validate_cname
valid_options = refl

cname_remove-cname_add_example :
    (added : App) × ((cname_add dns options (ok canary_app) (λ app. none)).written ≡ some added)
    × ((cname_remove options.cname (ok added) (λ app. none)).written ≡ some canary_app)
cname_remove-cname_add_example =
    cname_remove-cname_add dns options canary_app (λ app. none) valid_options refl refl

cname_add_keeps_example : IsUsable (cname_add dns options (ok canary_app) (λ app. none)).written
cname_add_keeps_example = cname_add_keeps dns options canary_app (λ app. none) refl refl
