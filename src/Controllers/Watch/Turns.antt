-- ===== src/Controllers/Watch/Turns.antt =====
-- One round of the goroutine that watches a rollout: what it reports, and how it may end.
use ketch.Base.{
  String, Bool, true, false, List, [], ◌∷◌, ◌++◌, ℤ, Result, Error, beq_ℤ, All, All-append, ◌&&◌,
  not, ◌≡◌, refl, ap, ◌∙◌, pos, leb_ℤ, ltb_ℤ, ◌⊎◌, inl, inr, Bool-cases, Result-cases,
}
use ketch.App.{App}
use ketch.App.Canary.{Emitted, normal, warning}
use ketch.App.Reports.{is_deployment_event}
use ketch.Controllers.Pods.{is_not_found, Pod, is_canceled_error}
use ketch.Controllers.Progress.{
  Watching, update_reason, error_reason, observe, report_created, report_healthcheck, report_ready,
  report_pending,
}
use ketch.Controllers.Watch.{
  Wake, polled, closed, other, seen, healthcheck_due, timed_out, done, Round, Turn, stop, go,
  read_again, select,
}

abbrev pub IsUpdate : Emitted → Type 0
IsUpdate a = (a.event_type ≡ normal) × (a.reason ≡ update_reason)

abbrev pub IsWarning : Emitted → Type 0
IsWarning a = (a.event_type ≡ warning) × (a.reason ≡ error_reason)

-- Some updates, and one last report.
abbrev pub EndsWith : (Emitted → Type 0) → List Emitted → Type 0
EndsWith P events =
    (updates : List Emitted) × (last : Emitted) × (events ≡ updates ++ (last ∷ []))
    × All IsUpdate updates
    × P last

-- A round in which the context ends.
abbrev pub is_done : Round → Bool
is_done r = elim r.wake [ done e ↦ true | _ ↦ false ]

-- A round after which the loop does not go on.
abbrev pub is_last : Round → Bool
is_last r = elim r.wake [ done e ↦ true | timed_out ↦ true | _ ↦ false ]

-- An error that is not reported: the context was canceled, or ended in one of the rounds.
abbrev pub IsSilent : Bool → Error → Type 0
IsSilent ended e = (is_canceled_error e ≡ true) ⊎ (ended ≡ true)

abbrev pub woken : Round → Wake → Round
woken r wake = record r { wake = wake }

append_one_assoc :
    (xs ys : List Emitted) (a : Emitted) → xs ++ (ys ++ (a ∷ [])) ≡ (xs ++ ys) ++ (a ∷ [])
append_one_assoc [] ys a = refl
append_one_assoc (x ∷ xs) ys a = ap (◌∷◌ x) (append_one_assoc xs ys a)

pub EndsWith-append :
    (P : Emitted → Type 0) (xs ys : List Emitted)
    → All IsUpdate xs
    → EndsWith P ys
    → EndsWith P (xs ++ ys)
EndsWith-append P xs ys h (updates, last, e, all, p) = (
  xs ++ updates,
  last,
  ap (λ zs. xs ++ zs) e ∙ append_one_assoc xs updates last,
  All-append IsUpdate xs updates h all,
  p,
)

-- What a round's end may be.
abbrev pub IsTurn : Round → Turn → Type 0
IsTurn r (stop events e) =
    EndsWith IsWarning events ⊎ (All IsUpdate events × IsSilent (is_done r) e)
IsTurn r (go events w) = All IsUpdate events × (is_last r ≡ false)

module _ (error_text : Error → String) (app : App) (process_name : String) (spec_replicas : ℤ) where
  created-Updates :
      (old new : ℤ) → All IsUpdate (report_created app process_name spec_replicas old new)
  unfolding report_created
  created-Updates old new = elim (Bool-cases (beq_ℤ old new)) [
    | inl same ↦ rw (same, All) tt
    | inr differ ↦ rw (differ, All) ((refl, refl), tt)
  ]

  healthcheck-Updates :
      (starts : Bool) → All IsUpdate (report_healthcheck app process_name spec_replicas starts)
  unfolding report_healthcheck
  healthcheck-Updates true = ((refl, refl), tt)
  healthcheck-Updates false = tt

  ready-Updates : (old new : ℤ) → All IsUpdate (report_ready app process_name spec_replicas old new)
  unfolding report_ready
  ready-Updates old new = elim (Bool-cases (not (beq_ℤ old new) && leb_ℤ (pos 0) new)) [
    | inr same ↦ rw (same, All) tt
    | inl differ ↦ rw (differ, All) ((refl, refl), tt)
  ]

  pending-Updates :
      (old new : ℤ) → All IsUpdate (report_pending app process_name spec_replicas old new)
  unfolding report_pending
  pending-Updates old new = elim (Bool-cases (not (beq_ℤ old new) && ltb_ℤ (pos 0) new)) [
    | inr same ↦ rw (same, All) tt
    | inl differ ↦ rw (differ, All) ((refl, refl), tt)
  ]

  pub observe-Updates :
      (pods : Result (List Pod)) (w : Watching)
      → All IsUpdate (observe app process_name spec_replicas pods w).0
  unfolding observe
  observe-Updates pods w =
      All-append IsUpdate _ _ (created-Updates w.old_updated_replicas w.workload.updated_replicas) (
        All-append IsUpdate _ _ (healthcheck-Updates _) (
          All-append IsUpdate _ _ (ready-Updates w.old_ready_units w.workload.ready_replicas)
            (pending-Updates w.old_pending_termination _)))

  read_again-IsTurn :
      (r : Round) (events : List Emitted) (w : Watching)
      → All IsUpdate events
      → is_last r ≡ false
      → IsTurn r (read_again error_text app process_name spec_replicas r events w)
  unfolding read_again
  read_again-IsTurn r events w h going = elim (Result-cases r.workload) [
    | inl (wl, found) ↦ rw (found, read_again) (h, going)
    | inr (e, missing) ↦ elim (Bool-cases (is_canceled_error e)) [
      | inl gone ↦ rw (missing, read_again, gone) (inr (h, inl gone))
      | inr real ↦ elim (Bool-cases (is_not_found e)) [
        | inl absent ↦ rw (missing, read_again, real, absent) (h, going)
        | inr broken ↦
            rw (missing, read_again, real, broken) (inl (events, _, refl, h, (refl, refl)))
      ]
    ]
  ]

  select-woken :
      (wake : Wake) (r : Round) (w : Watching)
      → IsTurn (woken r wake) (select error_text app process_name spec_replicas (woken r wake) w)
  unfolding select
  select-woken polled r w = read_again-IsTurn (woken r polled) [] w tt refl
  select-woken closed r w = read_again-IsTurn (woken r closed) [] w tt refl
  select-woken other r w = read_again-IsTurn (woken r other) [] w tt refl
  select-woken (seen e) r w = elim (Bool-cases (is_deployment_event e w.workload.name)) [
    | inl mine ↦
        rw (mine, IsTurn) (read_again-IsTurn (woken r (seen e)) _ w ((refl, refl), tt) refl)
    | inr others ↦ rw (others, IsTurn) (read_again-IsTurn (woken r (seen e)) [] w tt refl)
  ]
  select-woken healthcheck_due r w = elim (Bool-cases w.healthcheck) [
    | inl started ↦ rw (started, IsTurn) (inl ([], _, refl, tt, (refl, refl)))
    | inr unset ↦
        rw (unset, IsTurn)
          (read_again-IsTurn (woken r healthcheck_due) [] (record w { healthcheck = false }) tt
            refl)
  ]
  select-woken timed_out r w = inl ([], _, refl, tt, (refl, refl))
  select-woken (done e) r w = inr (tt, inr refl)

  pub select-IsTurn :
      (r : Round) (w : Watching) → IsTurn r (select error_text app process_name spec_replicas r w)
  select-IsTurn r w = select-woken r.wake r w
