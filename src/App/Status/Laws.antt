-- ===== src/App/Status/Laws.antt =====
-- What `SetCondition` does to the conditions.
use ketch.Base.{
  String, List, [], ◌∷◌, Option, none, some, ◌≡◌, ◌==◌, ◌&&◌, if◌then◌else◌, arith, eq_iff,
}
use ketch.App.{Time, ConditionStatus, Condition, App}
use ketch.App.Status.{same_status, set_in, set_condition, find_condition, condition}

-- The condition that stands after `SetCondition`: the old one, with its transition time, when status and
-- message are the same.
abbrev pub after_set : Condition → Option Condition → Condition
after_set c none = c
after_set c (some old) =
    if same_status old.status c.status && old.message == c.message then old else c

pub find_condition-set_in :
    (t : String) (c : Condition) (cs : List Condition)
    → find_condition t (set_in c cs)
      ≡ (if c.type == t then some (after_set c (find_condition t cs)) else find_condition t cs)
unfolding set_in find_condition
find_condition-set_in t c [] = ground arith
find_condition-set_in t c (d ∷ cs) =
    ground
      (arith, find_condition-set_in t c cs, eq_iff d.type t, eq_iff d.type c.type, eq_iff c.type t)

-- Reading a condition after one was set, the same or another.
pub condition-set_condition :
    (t s : String) (status : ConditionStatus) (message : String) (time : Time) (app : App)
    → condition s (set_condition t status message time app).status ≡ (
        if t == s
        then some (
            after_set
              (record {
                type = t;
                status = status;
                last_transition_time = some time;
                message = message;
              })
              (condition s app.status))
        else condition s app.status)
unfolding set_condition condition
condition-set_condition t s status message time app =
    find_condition-set_in s _ app.status.conditions
