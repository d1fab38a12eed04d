-- ===== src/Chart/Application/Service.antt =====
-- The loop over the processes of a deployment, and the gateway's service that it finds.
use mathlib.Core.List.{append-nil, append_assoc}
use ketch.Base.{
  ◌<◌, ℤ, Bool, true, false, List, [], ◌∷◌, ◌++◌, Option, none, some, Result, ok, err, returned,
  ltb, ltb→lt, ◌&&◌, ◌||◌, any, Pointwise, if◌then◌else◌, ◌≡◌, refl, ap, sym, ◌∙◌, subst, arith,
  inl, inr, Bool-cases,
}
use ketch.App.{ProcessSpec, AppSpec}
use ketch.Chart.Procfile.{Procfile, is_routable}
use ketch.Chart.Configurator.{Configurator}
use ketch.Chart.Process.{Process, has_open_port, new_process}
use ketch.Chart.Application.{Deployment, Service, process_options, add_processes}
use ketch.Chart.Application.Processes.{IsMade, new_process-IsMade}

abbrev pub is_some {ℓ} : {A : Type ℓ} → Option A → Bool
is_some none = false
is_some (some x) = true

-- Traffic goes to a deployment that has a share of it, to a process that takes it at a port.
abbrev pub TakesTraffic : Service → Type 0
TakesTraffic none = Unit
TakesTraffic (some s) =
    (0 < s.deployment.routing_settings.weight)
    × (s.process.routable ≡ true)
    × (has_open_port s.process ≡ true)

-- A service that is set later takes the place of one that was set before.
abbrev pub or_else : Service → Service → Service
or_else none before = before
or_else (some s) before = some s

-- The last of the processes that is routable, if the deployment has traffic, with the deployment as it was
-- before that process was added to it.
abbrev pub gateway_of : Deployment → List Process → Service
gateway_of d [] = none
gateway_of d (q ∷ qs) = or_else (gateway_of (record d { processes = d.processes ++ (q ∷ []) }) qs) (
    if q.routable && ltb 0 d.routing_settings.weight
    then some (record { deployment = d; process = q })
    else none)

-- That of the last deployment that has one.
abbrev pub gateway : List Deployment → Service
gateway [] = none
gateway (d ∷ ds) = or_else (gateway ds) (gateway_of (record d { processes = [] }) d.processes)

pub or_else_assoc : (a b c : Service) → or_else (or_else a b) c ≡ or_else a (or_else b c)
or_else_assoc none b c = refl
or_else_assoc (some s) b c = refl

pub or_else-none : (a : Service) → or_else a none ≡ a
or_else-none none = refl
or_else-none (some s) = refl

abbrev pub AreMade :
    AppSpec → ℤ → Procfile → Configurator → List ProcessSpec → List Process → Type 0
AreMade spec version procfile c ps qs =
    Pointwise (λ p q. IsMade spec version c (is_routable procfile p.name) p q) ps qs

-- What the loop over the processes makes of the deployment `d`.
pub record Added (spec : AppSpec) (procfile : Procfile) (c : Configurator) (ps : List ProcessSpec)
    (d : Deployment) (service : Service) (r : Deployment × Service) : Type 0 where
  pub made : List Process
  pub deployment : r.0 ≡ record d { processes = d.processes ++ made }
  pub are_made : AreMade spec d.version procfile c ps made
  pub takes : TakesTraffic service → TakesTraffic r.1
  pub service_is : r.1 ≡ or_else (gateway_of d made) service
  pub found : is_some r.1 ≡ (
      is_some service
      || (ltb 0 d.routing_settings.weight && any (λ p. is_routable procfile p.name) ps))

-- The service after one process.
next_service : (routable : Bool) (d : Deployment) (process : Process) (service : Service) → Service
next_service routable d process service =
    if routable && ltb 0 d.routing_settings.weight
    then some (record { deployment = d; process = process })
    else service

next_service-or_else :
    (routable : Bool) (d : Deployment) (q : Process) (service : Service)
    → q.routable ≡ routable
    → next_service routable d q service
      ≡ or_else
          (if q.routable && ltb 0 d.routing_settings.weight
            then some (record { deployment = d; process = q })
            else none)
          service
unfolding next_service
next_service-or_else routable d q service same =
    elim (Bool-cases (routable && ltb 0 d.routing_settings.weight)) [
      | inl served ↦ rw (same, served) refl
      | inr passed ↦ rw (same, passed) refl
    ]

next_service-TakesTraffic :
    (routable : Bool) (d : Deployment) (process : Process) (service : Service)
    → process.routable ≡ routable
    → (routable ≡ true → has_open_port process ≡ true)
    → TakesTraffic service
    → TakesTraffic (next_service routable d process service)
unfolding next_service
next_service-TakesTraffic false d process service same port takes = takes
next_service-TakesTraffic true d process service same port takes =
    elim (Bool-cases (ltb 0 d.routing_settings.weight)) [
      | inl share ↦ rw (share, TakesTraffic) (ltb→lt _ _ share, same, port refl)
      | inr no_share ↦ rw (no_share, TakesTraffic) takes
    ]

next_service-is_some :
    (routable : Bool) (d : Deployment) (process : Process) (service : Service) (rest : Bool)
    → (is_some (next_service routable d process service)
        || (ltb 0 d.routing_settings.weight && rest))
      ≡ (is_some service || (ltb 0 d.routing_settings.weight && (routable || rest)))
unfolding next_service
next_service-is_some routable d process service rest = ground arith

pub ok-inj {ℓ} : {A : Type ℓ} {x y : A} → ◌≡◌ {A = Result A} (ok x) (ok y) → x ≡ y
ok-inj {A} {x} h = ap (λ r. elim r as (λ _. A) [ err e ↦ x | ok z ↦ z ]) h

module _ (spec : AppSpec) (procfile : Procfile) (c : Configurator) where
  pub add_processes-Added :
      (ps : List ProcessSpec) (d : Deployment) (service : Service) {r : Deployment × Service}
      → add_processes spec procfile c ps d service ≡ ok r
      → Added spec procfile c ps d service r
  unfolding add_processes next_service
  add_processes-Added [] d service h =
      let e = ok-inj h in
      record {
        made = [];
        deployment =
            ap (λ r. r.0) (sym e)
            ∙ ap (λ qs. record d { processes = qs }) (sym (append-nil d.processes));
        are_made = tt;
        takes = λ t. subst (λ r. TakesTraffic r.1) e t;
        service_is = ap (λ r. r.1) (sym e);
        found = ap (λ r. is_some r.1) (sym e) ∙ ground arith;
      }
  add_processes-Added (p ∷ ps) d service h =
      let routable = is_routable procfile p.name in
      let (q, new, h1) =
        returned _ (new_process p.name routable (process_options spec d.version c p)) h in
      let is_made = new_process-IsMade spec d.version c p routable new in
      let public : q.routable ≡ routable = ap (λ x. x.routable) is_made.others in
      let rest =
        add_processes-Added ps (record d { processes = d.processes ++ (q ∷ []) })
          (next_service routable d q service) h1 in
      record {
        made = q ∷ rest.made;
        deployment =
            rest.deployment
            ∙ ap (λ qs. record d { processes = qs }) (append_assoc d.processes (q ∷ []) rest.made);
        are_made = (is_made, rest.are_made);
        takes = λ t.
            rest.takes (next_service-TakesTraffic routable d q service public is_made.has_port t);
        service_is =
            rest.service_is
            ∙ ap (or_else (gateway_of (record d { processes = d.processes ++ (q ∷ []) }) rest.made))
                (next_service-or_else routable d q service public)
            ∙ sym (
                or_else_assoc
                  (gateway_of (record d { processes = d.processes ++ (q ∷ []) }) rest.made) _
                  service);
        found = rest.found ∙ next_service-is_some routable d q service _;
      }
