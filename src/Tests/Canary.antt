-- ===== src/Tests/Canary.antt =====
-- A whole canary of two steps, the share of units, and the events of a step.
use ketch.Base.{ℕ, ◌≡◌, refl, false, [], some, pos, ok, lookup, ◌+ℤ◌, arith, length}
use ketch.App.{App}
use ketch.App.Units.{set_units_of}
use ketch.App.Scaling.{get_updated_units}
use ketch.App.Scaling.Split.{IsShare, split_pair, get_updated_units-IsShare}
use ketch.App.Events.{
  last_version, new_canary_event, canary_event_from_annotations, new_canary_next_step_event,
  canary_next_step_event_from_annotations,
}
use ketch.App.Events.RoundTrip.{bare, canary_event-round_trip, next_step-round_trip}
use ketch.App.Canary.{do_canary}
use ketch.App.Canary.Run.{InProgress, Due, here, next, After, canary_run}
use ketch.Tests.Data.{old, new, canary_app}

abbrev halfway : App
halfway = (do_canary canary_app (pos 100) []).app

abbrev done : App
done = (do_canary halfway (pos 170) []).app

canary_tests :
    (halfway.spec.canary.next_scheduled_time ≡ some (pos 160))
    × (length halfway.spec.deployments ≡ 2)
    × (length (do_canary canary_app (pos 100) []).events ≡ 3)
    × (done.spec.canary.active ≡ false)
    × (length done.spec.deployments ≡ 1)
unfolding do_canary lookup set_units_of ◌+ℤ◌
canary_tests = (refl, refl, refl, refl, refl)

abbrev pub start_of_canary : InProgress 2 0 (pos 2) canary_app
start_of_canary = record {
  active = refl;
  steps = refl;
  step_weight = refl;
  current_step = refl;
  scheduled = pos 100;
  is_scheduled = refl;
  source = old;
  dest = new;
  deployments = refl;
  source_weight = refl;
  dest_version = refl;
  dest_weight = refl;
}

both-Due : Due 2 canary_app done
both-Due =
    next (pos 160) (pos 170) [] (next (pos 100) (pos 100) [] here refl refl) canary_tests.0 refl

canary_run_example : After 2 2 (pos 2) done
canary_run_example =
    canary_run 2 (pos 2) (omega arith) (omega arith) 2 start_of_canary both-Due (omega arith)

get_updated_units-IsShare_example :
    (n : ℕ) × IsShare 29 100 n × (get_updated_units 29 100 ≡ split_pair 100 n)
get_updated_units-IsShare_example = get_updated_units-IsShare 29 100 (omega arith) (omega arith)

canary_event-round_trip_example :
    canary_event_from_annotations
      (new_canary_event canary_app "CanaryStarted" "started").annotations
    ≡ ok (bare (new_canary_event canary_app "CanaryStarted" "started"))
unfolding last_version
canary_event-round_trip_example =
    canary_event-round_trip canary_app "CanaryStarted" "started" (omega arith)

next_step-round_trip_example :
    let e = new_canary_next_step_event canary_app old new in
    canary_next_step_event_from_annotations e.event.annotations
    ≡ ok (record e { event = bare e.event })
unfolding last_version
next_step-round_trip_example =
    next_step-round_trip canary_app old new (omega arith) (omega arith) (omega arith) (omega arith)
      (omega arith) (omega arith)
