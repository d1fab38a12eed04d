-- ===== src/Controllers/Watch/Reports.antt =====
-- What the goroutine that watches a rollout reports, and that it ends.
use ketch.Base.{
  String, Bool, true, List, [], ◌∷◌, ◌++◌, ℤ, Error, All, All-append, any, ◌≡◌, ◌≢◌, refl, sym,
  subst, arith, ◌⊎◌, inl, inr, Bool-cases,
}
use ketch.App.{App}
use ketch.App.Canary.{Emitted}
use ketch.Controllers.Workload.{Workload}
use ketch.Controllers.Progress.{Watching, is_late, is_complete}
use ketch.Controllers.Watch.{
  Round, Ending, watching, complete, failed, Watch, Turn, stop, go, report_outcome, watch_loop,
  watch_func, start,
}
use ketch.Controllers.Watch.Ends.{Ends}
use ketch.Controllers.Watch.Loop.{after_turn, watch_loop-late, watch_loop-complete, watch_loop-turn}
use ketch.Controllers.Watch.Turns.{
  IsUpdate, EndsWith, IsWarning, is_done, is_last, IsSilent, IsTurn, EndsWith-append,
  observe-Updates, select-IsTurn,
}

-- What is reported by the end: the outcome if the rollout is complete, a warning if it failed, and in all
-- other cases nothing but updates.
abbrev pub IsReported : (Workload → Emitted) → ℤ → Bool → List Emitted → Ending → Type 0
IsReported outcome spec_replicas ended events watching = All IsUpdate events
IsReported outcome spec_replicas ended events (complete wl) =
    EndsWith (λ a. a ≡ outcome wl) events × (is_complete spec_replicas wl ≡ true)
IsReported outcome spec_replicas ended events (failed e) =
    EndsWith IsWarning events ⊎ (All IsUpdate events × IsSilent ended e)

module _ (error_text : Error → String) (app : App) (process_name : String) (spec_replicas : ℤ) where
  IsReported-after :
      (before : List Emitted) (ended : Bool) (watch : Watch)
      → All IsUpdate before
      → IsReported
          (report_outcome error_text app process_name spec_replicas)
          spec_replicas
          ended
          watch.events
          watch.ending
      → IsReported
          (report_outcome error_text app process_name spec_replicas)
          spec_replicas
          ended
          (before ++ watch.events)
          watch.ending
  IsReported-after before ended watch h reported = go_on watch.events watch.ending reported
    where
      go_on :
          (events : List Emitted) (ending : Ending)
          → IsReported
              (report_outcome error_text app process_name spec_replicas)
              spec_replicas
              ended
              events
              ending
          → IsReported
              (report_outcome error_text app process_name spec_replicas)
              spec_replicas
              ended
              (before ++ events)
              ending
      go_on events watching r = All-append IsUpdate before events h r
      go_on events (complete wl) (ends, whole) = (EndsWith-append _ before events h ends, whole)
      go_on events (failed e) (inl ends) = inl (EndsWith-append IsWarning before events h ends)
      go_on events (failed e) (inr (quiet, silent)) =
          inr (All-append IsUpdate before events h quiet, silent)

  -- The error of a silent end is the same when more rounds are looked at.
  IsReported-or :
      (ended more : Bool) (events : List Emitted) (ending : Ending)
      → (ended ≡ true → more ≡ true)
      → IsReported
          (report_outcome error_text app process_name spec_replicas)
          spec_replicas
          ended
          events
          ending
      → IsReported
          (report_outcome error_text app process_name spec_replicas)
          spec_replicas
          more
          events
          ending
  IsReported-or ended more events watching h r = r
  IsReported-or ended more events (complete wl) h r = r
  IsReported-or ended more events (failed e) h (inl ends) = inl ends
  IsReported-or ended more events (failed e) h (inr (quiet, inl gone)) = inr (quiet, inl gone)
  IsReported-or ended more events (failed e) h (inr (quiet, inr over)) = inr (quiet, inr (h over))

  abbrev IsReportedBy : List Round → Watch → Type 0
  IsReportedBy rounds watch =
      IsReported (report_outcome error_text app process_name spec_replicas) spec_replicas
        (any is_done rounds) watch.events watch.ending
      × (any is_last rounds ≡ true → watch.ending ≢ watching)

  module _ (r : Round) (rounds : List Round) (updates : List Emitted)
      (h : All IsUpdate updates) where
    after_turn-IsReportedBy :
        (turn : Turn)
        → IsTurn r turn
        → ((w : Watching)
            → IsReportedBy rounds (watch_loop error_text app process_name spec_replicas rounds w))
        → IsReportedBy
            (r ∷ rounds)
            (after_turn error_text app process_name spec_replicas updates rounds turn)
    after_turn-IsReportedBy (stop events e) (inl ends) rest =
        (inl (EndsWith-append IsWarning updates events h ends), λ _ k. cc)
    after_turn-IsReportedBy (stop events e) (inr (quiet, inl gone)) rest =
        (inr (All-append IsUpdate updates events h quiet, inl gone), λ _ k. cc)
    after_turn-IsReportedBy (stop events e) (inr (quiet, inr over)) rest =
        (inr (All-append IsUpdate updates events h quiet, inr (ground (arith, over))), λ _ k. cc)
    after_turn-IsReportedBy (go events w) (quiet, going) rest =
        let watch = watch_loop error_text app process_name spec_replicas rounds w in
        (
          IsReported-after (updates ++ events) (any is_done (r ∷ rounds)) watch
              (All-append IsUpdate updates events h quiet)
              (IsReported-or (any is_done rounds) (any is_done (r ∷ rounds)) watch.events
                watch.ending (λ over. ground (arith, over)) (rest w).0),
          λ last. (rest w).1 (ground (arith, last, going)),
        )

  watch_loop-IsReportedBy :
      (rounds : List Round) (w : Watching)
      → IsReportedBy rounds (watch_loop error_text app process_name spec_replicas rounds w)
  unfolding watch_loop
  watch_loop-IsReportedBy [] w = (tt, λ none_left. cc)
  watch_loop-IsReportedBy (r ∷ rounds) w =
      let quiet = observe-Updates error_text app process_name spec_replicas r.pods w in
      elim (Bool-cases (is_late w.workload.conditions)) [
        | inl late ↦
            subst (IsReportedBy (r ∷ rounds))
              (sym (watch_loop-late error_text app process_name spec_replicas r rounds w late))
              (inl ([], _, refl, tt, (refl, refl)), λ _ k. cc)
        | inr in_time ↦ elim (Bool-cases (is_complete spec_replicas w.workload)) [
          | inl whole ↦
              subst (IsReportedBy (r ∷ rounds))
                (sym (
                  watch_loop-complete error_text app process_name spec_replicas r rounds w in_time
                    whole))
                (((_, _, refl, quiet, refl), whole), λ _ k. cc)
          | inr partial ↦
              subst (IsReportedBy (r ∷ rounds))
                (sym (
                  watch_loop-turn error_text app process_name spec_replicas r rounds w in_time
                    partial))
                (after_turn-IsReportedBy r rounds _ quiet _
                  (select-IsTurn error_text app process_name spec_replicas r _)
                  (λ w. watch_loop-IsReportedBy rounds w))
        ]
      ]

module _ (error_text : Error → String) (app : App) (process_name : String) (wl : Workload)
    (rounds : List Round) where
  -- The goroutine has ended when, in one of the rounds, the ten-minute timer fires or the context ends.
  pub watch_func_ends :
      any is_last rounds ≡ true
      → (watch_func error_text app process_name wl rounds).ending ≢ watching
  unfolding watch_func
  watch_func_ends =
      (watch_loop-IsReportedBy error_text app process_name wl.replicas rounds (start wl)).1
