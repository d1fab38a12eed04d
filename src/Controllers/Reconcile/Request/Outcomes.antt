-- ===== src/Controllers/Reconcile/Request/Outcomes.antt =====
-- The events with which `Reconcile` of internal/controllers/app_controller.go reports an outcome.
use Prim.Native.Char.{code}
use Prim.Native.String
use text.Mathlib.TextLemmas.{cons-append}
use mathlib.Core.List.{append-nil, append_assoc}
use ketch.Base.{
  itoa, concat, if◌then◌else◌, beq, Bool, true, false, List, [], ◌∷◌, ◌++◌, Option, none, some,
  Error, String, All, Bool-cases, ◌≡◌, eq_iff, refl, sym, ap, ◌∙◌, ◌==◌, arith, inl, inr,
}
use ketch.App.{App}
use ketch.App.Canary.{EventType, normal, warning, Emitted}
use ketch.App.Reports.{outcome_success, outcome_fail}
use ketch.App.Status.{set_condition}
use ketch.Deploy.Wait.{awaited_reason, is_awaited}
use ketch.Controllers.Pods.{is_conflict_error}
use ketch.Controllers.Reconcile.{World, Reconciled}
use ketch.Controllers.Reconcile.Request.{
  report_as, report, status_written, write_status, is_hidden, conclude,
}

-- A text with another first letter than a text that goes on.
starts_with_a : String → Bool
starts_with_a String.[] = false
starts_with_a (String.◌∷◌ c s) = beq (code c) 97

starts_with_a-append : (t : String) → starts_with_a (String.◌++◌ "app " t) ≡ true
unfolding starts_with_a
starts_with_a-append t = rw cons-append refl

unawaited : (app : App) → "AppReconcileOutcome" == awaited_reason app ≡ false
unfolding awaited_reason outcome_success starts_with_a
unawaited app = elim (Bool-cases ("AppReconcileOutcome" == awaited_reason app)) [
  | inr other ↦ other
  | inl same ↦
      (let path : "AppReconcileOutcome" ≡ awaited_reason app = (eq_iff _ _).0 same in
        let starts : starts_with_a (awaited_reason app) ≡ true = starts_with_a-append (
          String.◌++◌ app.name (
            String.◌++◌ " "
              (String.◌++◌ (itoa app.spec.deployments_count) " reconcile success"))) in
        absurd (ground (arith, ap starts_with_a path ∙ starts)))
]

-- An event that is an outcome: its reason is the type's name.
abbrev outcome : EventType → String → Emitted
outcome event_type text = record {
  annotations = [];
  event_type = event_type;
  reason = "AppReconcileOutcome";
  text = text;
}

-- The texts of an outcome say of which app and of which number of deployments it is.
abbrev success : App → Emitted
success app =
    outcome normal (
      concat
        ("app " ∷ app.name ∷ " " ∷ itoa app.spec.deployments_count ∷ " reconcile success" ∷ []))

abbrev failure : String → App → Emitted
failure text app = outcome warning (
    concat (
      "app "
      ∷ app.name
      ∷ " "
      ∷ itoa app.spec.deployments_count
      ∷ " reconcile fail: ["
      ∷ text
      ∷ "]"
      ∷ []))

module _ (world : World) where
  -- The outcome of `reconcile`.
  abbrev result_of : Option Error → App → Emitted
  result_of none app = success app
  result_of (some e) app = failure (world.error_text e) app

  -- The outcome of an update of the status that failed, unless with a conflict.
  abbrev status_result : Option Error → App → List Emitted
  status_result none app = []
  status_result (some e) app =
      if is_conflict_error e then [] else failure (world.error_text e) app ∷ []

  -- What `Reconcile` reports after the events of `reconcile`.
  abbrev pub outcomes : Reconciled → List Emitted
  outcomes r =
      if is_hidden world r.error
      then []
      else result_of r.error r.app ∷ status_result (world.update_status (report world r).app) r.app

  reported :
      (r : Reconciled) (error : Option Error)
      → ((report_as world r error).events ≡ r.events ++ (result_of error r.app ∷ []))
        × ((report_as world r error).app.name ≡ r.app.name)
        × ((report_as world r error).app.spec ≡ r.app.spec)
  unfolding outcome_success outcome_fail set_condition
  reported r none = (refl, refl, refl)
  reported r (some e) = (refl, refl, refl)

  status_result_of :
      (error : Option Error) (a b : App)
      → a.name ≡ b.name
      → a.spec ≡ b.spec
      → status_result error a ≡ status_result error b
  status_result_of none a b name spec = refl
  status_result_of (some e) a b name spec = rw (name, spec) refl

  written :
      (r : Reconciled) (error : Option Error)
      → (status_written world r error).events ≡ r.events ++ status_result error r.app
  unfolding outcome_fail
  written r none = sym (append-nil r.events)
  written r (some e) = elim (Bool-cases (is_conflict_error e)) [
    | inl conflict ↦ rw conflict (sym (append-nil r.events))
    | inr shown ↦ rw shown refl
  ]

  conclude_events : (r : Reconciled) → (conclude world r).events ≡ r.events ++ outcomes r
  unfolding conclude write_status report
  conclude_events r = elim (Bool-cases (is_hidden world r.error)) [
    | inl hidden ↦ rw hidden (sym (append-nil r.events))
    | inr shown ↦
        (let after = report_as world r r.error in
          let (events, same_name, same_spec) = reported r r.error in
          let status = world.update_status after.app in
          let same = status_result_of status after.app r.app same_name same_spec in
          rw shown (
            written after status
            ∙ ap (λ es. es ++ status_result status after.app) events
            ∙ append_assoc r.events (result_of r.error r.app ∷ []) (status_result status after.app)
            ∙ ap (λ es. r.events ++ (result_of r.error r.app ∷ es)) same))
  ]

  module _ (app : App) where
    status-unawaited :
        (error : Option Error) (a : App)
        → All (λ e. is_awaited app e ≡ false) (status_result error a)
    unfolding is_awaited
    status-unawaited none a = tt
    status-unawaited (some e) a = elim (Bool-cases (is_conflict_error e)) [
      | inl conflict ↦ rw conflict tt
      | inr shown ↦ rw shown (unawaited app, tt)
    ]

    result-unawaited : (error : Option Error) (a : App) → is_awaited app (result_of error a) ≡ false
    unfolding is_awaited
    result-unawaited none a = unawaited app
    result-unawaited (some e) a = unawaited app

    outcomes-unawaited : (r : Reconciled) → All (λ e. is_awaited app e ≡ false) (outcomes r)
    outcomes-unawaited r = elim (Bool-cases (is_hidden world r.error)) [
      | inl hidden ↦ rw hidden tt
      | inr shown ↦ rw shown (result-unawaited r.error r.app, status-unawaited _ r.app)
    ]

-- Unless its error is a conflict or a canceled context, `Reconcile` reports, after the events of `reconcile`,
-- the success of the app or its failure with the error, and then, when the update of the status fails and not
-- with a conflict, that failure, and nothing else; none of these events is one that a deployment with a wait
-- watches for, whatever its app is.
pub conclude-is_awaited :
    (world : World) (r : Reconciled) (app : App)
    → ((conclude world r).events ≡ r.events ++ outcomes world r)
      × All (λ e. is_awaited app e ≡ false) (outcomes world r)
conclude-is_awaited world r app = (conclude_events world r, outcomes-unawaited world app r)
