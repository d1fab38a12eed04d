-- ===== src/Controllers/Watch/Ends.antt =====
-- When the goroutine that watches a rollout ends, and with what: the workload that each round begins with.
use ketch.Base.{
  String, Bool, true, false, List, [], ◌∷◌, ℤ, ok, err, Error, message, beq_ℤ_iff, ◌||◌, not, ◌≡◌,
  refl, sym, subst, arith, inl, inr, Bool-cases, Result-cases,
}
use ketch.App.{App}
use ketch.App.Canary.{Emitted}
use ketch.App.Reports.{is_deployment_event}
use ketch.Controllers.Pods.{is_canceled_error, is_not_found}
use ketch.Controllers.Workload.{Workload}
use ketch.Controllers.Progress.{Watching, is_late, is_complete, late_text, observe}
use ketch.Controllers.Watch.{
  Wake, polled, closed, other, seen, healthcheck_due, timed_out, done, Round, Ending, watching,
  complete, failed, Watch, Turn, stop, go, read_again, select, watch_loop,
}
use ketch.Controllers.Watch.Loop.{after_turn, watch_loop-late, watch_loop-complete, watch_loop-turn}
use ketch.Controllers.Watch.Turns.{is_last, woken}

-- All units are ready, and there are no other replicas.
abbrev pub IsReady : ℤ → Workload → Type 0
IsReady spec_replicas wl = (wl.ready_replicas ≡ spec_replicas) × (wl.replicas ≡ spec_replicas)

-- The workload after a round: that which is read, or the old one when none is there.
abbrev pub reread : Round → Workload → Workload
reread r wl = elim r.workload [ ok new ↦ new | err e ↦ wl ]

-- A round in which the watch may fail: a timer fires, the context ends, or the workload cannot be read.
abbrev pub may_fail : Round → Bool
may_fail r =
    is_last r
    || (elim r.wake [ healthcheck_due ↦ true | _ ↦ false ])
    || (elim r.workload [ ok new ↦ false | err e ↦ is_canceled_error e || not (is_not_found e) ])

-- How the watch of a workload ends by its rounds: it waits when none is left; a round that begins with an
-- exceeded progress deadline fails; any other that begins with all units ready is complete; else the watch
-- fails in the round, or it goes on with the workload that is read in it.
pub data Ends (spec_replicas : ℤ) : List Round → Workload → Ending → Type 0 where
  waits : {wl : Workload} → Ends spec_replicas [] wl watching
  is_over :
      {r : Round} {rounds : List Round} {wl : Workload}
      → is_late wl.conditions ≡ true
      → Ends spec_replicas (r ∷ rounds) wl (failed (message (late_text wl)))
  is_ready :
      {r : Round} {rounds : List Round} {wl : Workload}
      → is_late wl.conditions ≡ false
      → IsReady spec_replicas wl
      → Ends spec_replicas (r ∷ rounds) wl (complete wl)
  fails :
      {r : Round} {rounds : List Round} {wl : Workload} {e : Error}
      → is_late wl.conditions ≡ false
      → ¬ IsReady spec_replicas wl
      → may_fail r ≡ true
      → Ends spec_replicas (r ∷ rounds) wl (failed e)
  goes_on :
      {r : Round} {rounds : List Round} {wl : Workload} {ending : Ending}
      → is_late wl.conditions ≡ false
      → ¬ IsReady spec_replicas wl
      → is_last r ≡ false
      → Ends spec_replicas rounds (reread r wl) ending
      → Ends spec_replicas (r ∷ rounds) wl ending

-- What a round's end means for the workload.
abbrev Leaves : Round → Workload → Turn → Type 0
Leaves r wl (stop events e) = may_fail r ≡ true
Leaves r wl (go events w) = (is_last r ≡ false) × (w.workload ≡ reread r wl)

module _ (error_text : Error → String) (app : App) (process_name : String) (spec_replicas : ℤ) where
  read_again-Leaves :
      (r : Round) (events : List Emitted) (w : Watching)
      → is_last r ≡ false
      → Leaves r w.workload (read_again error_text app process_name spec_replicas r events w)
  unfolding read_again
  read_again-Leaves r events w going = elim (Result-cases r.workload) [
    | inl (wl, found) ↦ rw (found, read_again) (going, refl)
    | inr (e, missing) ↦ elim (Bool-cases (is_canceled_error e)) [
      | inl gone ↦ rw (missing, read_again, gone) (ground (arith, gone))
      | inr real ↦ elim (Bool-cases (is_not_found e)) [
        | inl absent ↦ rw (missing, read_again, real, absent) (going, refl)
        | inr broken ↦ rw (missing, read_again, real, broken) (ground (arith, broken))
      ]
    ]
  ]

  select-Leaves :
      (wake : Wake) (r : Round) (w : Watching)
      → Leaves
          (woken r wake)
          w.workload
          (select error_text app process_name spec_replicas (woken r wake) w)
  unfolding select
  select-Leaves polled r w = read_again-Leaves (woken r polled) [] w refl
  select-Leaves closed r w = read_again-Leaves (woken r closed) [] w refl
  select-Leaves other r w = read_again-Leaves (woken r other) [] w refl
  select-Leaves (seen e) r w = elim (Bool-cases (is_deployment_event e w.workload.name)) [
    | inl mine ↦ rw (mine, Leaves) (read_again-Leaves (woken r (seen e)) _ w refl)
    | inr others ↦ rw (others, Leaves) (read_again-Leaves (woken r (seen e)) [] w refl)
  ]
  select-Leaves healthcheck_due r w = elim (Bool-cases w.healthcheck) [
    | inl started ↦ rw (started, Leaves) refl
    | inr unset ↦
        rw (unset, Leaves)
          (read_again-Leaves (woken r healthcheck_due) [] (record w { healthcheck = false }) refl)
  ]
  select-Leaves timed_out r w = refl
  select-Leaves (done e) r w = refl

  is_complete-IsReady :
      (wl : Workload) → is_complete spec_replicas wl ≡ true → IsReady spec_replicas wl
  is_complete-IsReady wl h = (
    (beq_ℤ_iff wl.ready_replicas spec_replicas).0 (ground (arith, h)),
    (beq_ℤ_iff wl.replicas spec_replicas).0 (ground (arith, h)),
  )

  IsReady-is_complete :
      (wl : Workload) → is_complete spec_replicas wl ≡ false → ¬ IsReady spec_replicas wl
  IsReady-is_complete wl h (ready, all) =
      let a = (beq_ℤ_iff wl.ready_replicas spec_replicas).1 ready in
      let b = (beq_ℤ_iff wl.replicas spec_replicas).1 all in ground (arith, h, a, b)

  module _ (r : Round) (rounds : List Round) (w : Watching)
      (in_time : is_late w.workload.conditions ≡ false)
      (partial : is_complete spec_replicas w.workload ≡ false) where
    after_turn-Ends :
        (before : List Emitted) (turn : Turn)
        → Leaves r w.workload turn
        → ((w' : Watching)
            → Ends spec_replicas rounds w'.workload
                (watch_loop error_text app process_name spec_replicas rounds w').ending)
        → Ends spec_replicas
            (r ∷ rounds)
            w.workload
            (after_turn error_text app process_name spec_replicas before rounds turn).ending
    after_turn-Ends before (stop events e) may rest =
        fails in_time (IsReady-is_complete w.workload partial) may
    after_turn-Ends before (go events w') (going, read) rest =
        goes_on in_time (IsReady-is_complete w.workload partial) going (
          subst
            (λ wl.
              Ends spec_replicas rounds wl
                (watch_loop error_text app process_name spec_replicas rounds w').ending)
            read (rest w'))

  pub watch_loop-Ends :
      (rounds : List Round) (w : Watching)
      → Ends spec_replicas rounds w.workload
          (watch_loop error_text app process_name spec_replicas rounds w).ending
  unfolding watch_loop observe
  watch_loop-Ends [] w = waits
  watch_loop-Ends (r ∷ rounds) w = elim (Bool-cases (is_late w.workload.conditions)) [
    | inl late ↦
        subst (λ (x : Watch). Ends spec_replicas (r ∷ rounds) w.workload x.ending)
          (sym (watch_loop-late error_text app process_name spec_replicas r rounds w late))
          (is_over late)
    | inr in_time ↦ elim (Bool-cases (is_complete spec_replicas w.workload)) [
      | inl whole ↦
          subst (λ (x : Watch). Ends spec_replicas (r ∷ rounds) w.workload x.ending)
            (sym (
              watch_loop-complete error_text app process_name spec_replicas r rounds w in_time
                whole))
            (is_ready in_time (is_complete-IsReady w.workload whole))
      | inr partial ↦
          subst (λ (x : Watch). Ends spec_replicas (r ∷ rounds) w.workload x.ending)
            (sym (
              watch_loop-turn error_text app process_name spec_replicas r rounds w in_time partial))
            (after_turn-Ends r rounds w in_time partial _ _
              (select-Leaves r.wake r (observe app process_name spec_replicas r.pods w).1)
              (λ w'. watch_loop-Ends rounds w'))
    ]
  ]
