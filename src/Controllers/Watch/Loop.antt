-- ===== src/Controllers/Watch/Loop.antt =====
-- The loop of `watchFunc`, round by round: a round is late, complete or a turn.
use ketch.Base.{String, true, false, List, [], ◌∷◌, ◌++◌, ℤ, Error, message, ◌≡◌, refl}
use ketch.App.{App}
use ketch.App.Canary.{Emitted}
use ketch.Controllers.Progress.{Watching, is_late, is_complete, observe, report_error, late_text}
use ketch.Controllers.Watch.{
  Round, complete, failed, Watch, Turn, stop, go, select, report_outcome, watch_loop,
}

module _ (error_text : Error → String) (app : App) (process_name : String) (spec_replicas : ℤ) where
  -- The watch after a turn.
  abbrev pub after_turn : List Emitted → List Round → Turn → Watch
  after_turn before rounds (stop events e) = record { events = before ++ events; ending = failed e }
  after_turn before rounds (go events w) = record {
    events =
        (before ++ events)
        ++ (watch_loop error_text app process_name spec_replicas rounds w).events;
    ending = (watch_loop error_text app process_name spec_replicas rounds w).ending;
  }

  pub watch_loop-late :
      (r : Round) (rounds : List Round) (w : Watching)
      → is_late w.workload.conditions ≡ true
      → watch_loop error_text app process_name spec_replicas (r ∷ rounds) w ≡ record {
        events = report_error app process_name spec_replicas (late_text w.workload) "" ∷ [];
        ending = failed (message (late_text w.workload));
      }
  unfolding watch_loop
  watch_loop-late r rounds w late = rw (late, watch_loop) refl

  pub watch_loop-complete :
      (r : Round) (rounds : List Round) (w : Watching)
      → is_late w.workload.conditions ≡ false
      → is_complete spec_replicas w.workload ≡ true
      → watch_loop error_text app process_name spec_replicas (r ∷ rounds) w ≡ record {
        events =
            (observe app process_name spec_replicas r.pods w).0
            ++ (report_outcome error_text app process_name spec_replicas w.workload ∷ []);
        ending = complete w.workload;
      }
  unfolding watch_loop
  watch_loop-complete r rounds w in_time whole = rw (in_time, watch_loop, whole) refl

  pub watch_loop-turn :
      (r : Round) (rounds : List Round) (w : Watching)
      → is_late w.workload.conditions ≡ false
      → is_complete spec_replicas w.workload ≡ false
      → watch_loop error_text app process_name spec_replicas (r ∷ rounds) w
        ≡ after_turn (observe app process_name spec_replicas r.pods w).0 rounds (
            select error_text app process_name spec_replicas r
              (observe app process_name spec_replicas r.pods w).1)
  unfolding watch_loop
  watch_loop-turn r rounds w in_time partial =
      rw (in_time, watch_loop, partial)
        (by_turn (
          select error_text app process_name spec_replicas r
            (observe app process_name spec_replicas r.pods w).1))
    where
      by_turn :
          (t : Turn)
          → elim t as (λ _. Watch) [
            | stop events e ↦ record {
              events = (observe app process_name spec_replicas r.pods w).0 ++ events;
              ending = failed e;
            }
            | go events w' ↦ record {
              events =
                  ((observe app process_name spec_replicas r.pods w).0 ++ events)
                  ++ (watch_loop error_text app process_name spec_replicas rounds w').events;
              ending = (watch_loop error_text app process_name spec_replicas rounds w').ending;
            }
          ]
            ≡ after_turn (observe app process_name spec_replicas r.pods w).0 rounds t
      by_turn (stop events e) = refl
      by_turn (go events w') = refl
