-- ===== src/Jobs/Controller/Outcome.antt =====
-- The outcome of a reconcile of a job.
use ketch.Base.{
  String, true, Option, none, some, ok, Error, message, ◌==◌, ◌≡◌, refl, sym, subst, arith, ◌⊎◌,
  inl, inr, Bool-cases, Option-cases, Result-cases,
}
use ketch.App.{Condition, ConditionStatus, condition_true, condition_false, condition_unknown}
use ketch.App.Status.{same_status, find_condition}
use ketch.App.Status.Laws.{after_set, find_condition-set_in}
use ketch.Chart.Application.{ChartConfig}
use ketch.Jobs.{Job, job_condition, set_job_condition}
use ketch.Jobs.Controller.{
  JobChart, JobWorld, JobReconciled, ReconcileResult, new_job_chart, new_job_chart_config,
  config_map_name, update_chart, reconcile_job, report_job, reported, write_status,
  reconcile_or_delete_job, reconcile_job_request,
}

-- The result of `reconcile` is true with the chart that was installed, or false without one.
abbrev IsResult : ReconcileResult × Option (JobChart × ChartConfig) → Type 0
IsResult r =
    ((r.0.status ≡ condition_true) × ((c : JobChart × ChartConfig) × (r.1 ≡ some c)))
    ⊎ ((r.0.status ≡ condition_false) × (r.1 ≡ none))

-- The written status says that the job is scheduled, or that it is not.
abbrev pub IsScheduled : ConditionStatus → JobReconciled → Type 0
IsScheduled status r =
    (job : Job) × (r.status ≡ some job)
    × ((c : Condition) × (job_condition "Scheduled" job.status ≡ some c) × (c.status ≡ status))

abbrev pub IsInstalled : JobReconciled → Type 0
IsInstalled r =
    IsScheduled condition_true r
    × (r.error ≡ none)
    × ((c : JobChart × ChartConfig) × (r.installed ≡ some c))

abbrev pub IsRefused : JobReconciled → Type 0
IsRefused r =
    IsScheduled condition_false r × ((e : Error) × (r.error ≡ some e)) × (r.installed ≡ none)

same_status-eq : (a b : ConditionStatus) → same_status a b ≡ true → a ≡ b
same_status-eq condition_true condition_true h = refl
same_status-eq condition_true condition_false h = cc
same_status-eq condition_true condition_unknown h = cc
same_status-eq condition_false condition_true h = cc
same_status-eq condition_false condition_false h = refl
same_status-eq condition_false condition_unknown h = cc
same_status-eq condition_unknown condition_true h = cc
same_status-eq condition_unknown condition_false h = cc
same_status-eq condition_unknown condition_unknown h = refl

after_set-status : (c : Condition) (old : Option Condition) → (after_set c old).status ≡ c.status
after_set-status c none = refl
after_set-status c (some old) = elim (Bool-cases (same_status old.status c.status)) [
  | inr differs ↦ rw differs refl
  | inl same ↦ elim (Bool-cases (old.message == c.message)) [
    | inl equal ↦ ground (arith, same, equal, same_status-eq old.status c.status same)
    | inr other ↦ ground (arith, same, other)
  ]
]

module _ (world : JobWorld) (job : Job) where
  update_chart-IsResult :
      (chart : JobChart) (config : ChartConfig) (failure : Option Error)
      → IsResult (update_chart world chart config failure)
  update_chart-IsResult chart config (some e) = inr (refl, refl)
  update_chart-IsResult chart config none = inl (refl, ((chart, config), refl))

  reconcile_job-IsResult : IsResult (reconcile_job world job)
  unfolding reconcile_job
  reconcile_job-IsResult = elim (Bool-cases (job.spec.namespace == "")) [
    | inl unlinked ↦ rw (unlinked, reconcile_job) (inr (refl, refl))
    | inr linked ↦ elim (Result-cases (world.templates (config_map_name job))) [
      | inr (e, h) ↦ rw (linked, reconcile_job, h) (inr (refl, refl))
      | inl (tpls, h) ↦ elim (Option-cases (world.helm job.spec.namespace)) [
        | inr (e, k) ↦ rw (linked, reconcile_job, h, k) (inr (refl, refl))
        | inl k ↦
            rw (linked, reconcile_job, h, k)
              (update_chart-IsResult (new_job_chart job tpls) (new_job_chart_config job)
                (world.update_chart (new_job_chart job tpls) (new_job_chart_config job)))
      ]
    ]
  ]

  -- The condition that stands after it was set.
  set_job_condition-status :
      (status : ConditionStatus) (text : String)
      → (c : Condition) × (job_condition "Scheduled"
            (set_job_condition "Scheduled" status text world.time job).status
          ≡ some c)
        × (c.status ≡ status)
  unfolding set_job_condition job_condition
  set_job_condition-status status text =
      let new : Condition = record {
        type = "Scheduled";
        status = status;
        last_transition_time = some world.time;
        message = text;
      } in
      (
        after_set new (find_condition "Scheduled" job.status.conditions),
        find_condition-set_in "Scheduled" new job.status.conditions,
        after_set-status new (find_condition "Scheduled" job.status.conditions),
      )

  abbrev HasOutcome : ReconcileResult × Option (JobChart × ChartConfig) → Type 0
  HasOutcome r = IsInstalled (report_job world job r) ⊎ IsRefused (report_job world job r)

  module _ (writes : (j : Job) → world.update_status j ≡ none) where
    report_job-installed :
        (text : String) (c : JobChart × ChartConfig)
        → HasOutcome (record { status = condition_true; message = text }, some c)
    unfolding report_job
    report_job-installed text c =
        let job' = set_job_condition "Scheduled" condition_true text world.time job in
        inl (
          subst
            (λ o. IsInstalled (
              write_status world job'
                (reported world job (record { status = condition_true; message = text }, some c))
                o))
            (sym (writes job'))
            ((job', refl, set_job_condition-status condition_true text), refl, (c, refl)))

    report_job-refused :
        (text : String) → HasOutcome (record { status = condition_false; message = text }, none)
    unfolding report_job
    report_job-refused text =
        let job' = set_job_condition "Scheduled" condition_false text world.time job in
        inr (
          subst
            (λ o. IsRefused (
              write_status world job'
                (reported world job (record { status = condition_false; message = text }, none)) o))
            (sym (writes job'))
            (
              (job', refl, set_job_condition-status condition_false text),
              (message (world.format text), refl),
              refl,
            ))

    report_job-outcome :
        (r : ReconcileResult × Option (JobChart × ChartConfig)) → IsResult r → HasOutcome r
    report_job-outcome (result, installed) (inl (is_true, (c, found))) =
        subst (λ s. HasOutcome (record { status = s; message = result.message }, installed))
          (sym is_true)
          (subst (λ i. HasOutcome (record { status = condition_true; message = result.message }, i))
            (sym found) (report_job-installed result.message c))
    report_job-outcome (result, installed) (inr (is_false, nothing)) =
        subst (λ s. HasOutcome (record { status = s; message = result.message }, installed))
          (sym is_false)
          (subst
            (λ i. HasOutcome (record { status = condition_false; message = result.message }, i))
            (sym nothing) (report_job-refused result.message))

  -- A reconcile of a job that has its finalizer and is not to be deleted, when the status can be written:
  -- either a chart is installed, there is no error and the status says that the job is scheduled, or no
  -- chart is installed, there is an error, which makes the reconcile run again, and the status says that it
  -- is not scheduled.
  pub reconcile_job_request-outcome :
      world.contains_finalizer job ≡ true
      → job.deletion_timestamp ≡ none
      → ((j : Job) → world.update_status j ≡ none)
      → IsInstalled (reconcile_job_request world (ok job))
        ⊎ IsRefused (reconcile_job_request world (ok job))
  unfolding reconcile_job_request reconcile_or_delete_job
  reconcile_job_request-outcome held living writes =
      let e : reconcile_job_request world (ok job)
          ≡ report_job world job (reconcile_job world job) =
        ground (arith, held, living) in
      subst (λ r. IsInstalled r ⊎ IsRefused r) (sym e)
        (report_job-outcome writes (reconcile_job world job) reconcile_job-IsResult)
