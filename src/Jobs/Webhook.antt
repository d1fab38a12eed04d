-- ===== src/Jobs/Webhook.antt =====
-- internal/api/v1beta1/job_webhook.go: the validation of a job before the API server stores it. `jobs` is
-- what the client lists.
use ketch.Base.{
  String, Bool, true, List, [], ◌∷◌, ◌++◌, Option, none, some, Result, ok, err, Error, message,
  job_exists, ◌==◌, any, if◌then◌else◌, ◌≡◌, refl, arith, eq_iff,
}
use ketch.Jobs.{Job}

-- The loops of `ValidateCreate` and `ValidateUpdate`.
unfoldable pub check_name : String → List Job → Option Error
check_name name [] = none
check_name name (job ∷ jobs) =
    if job.spec.name == name then some job_exists else check_name name jobs

unfoldable pub validate_create : Job → Result (List Job) → Option Error
unfolding check_name
validate_create job jobs = elim jobs [ err e ↦ some e | ok js ↦ check_name job.spec.name js ]

-- `old` is the stored object, `none` if it is no job.
unfoldable pub validate_update : Job → Option Job → Result (List Job) → Option Error
unfolding check_name
validate_update job old jobs = elim old [
  | none ↦ some (message "can't validate job update")
  | some old_job ↦ elim jobs [ err e ↦ some e | ok js ↦ check_name old_job.spec.name js ]
]

-- `ValidateDelete`
abbrev pub validate_delete : Job → Option Error
validate_delete job = none

abbrev pub has_name : String → List Job → Bool
has_name name jobs = any (λ job. job.spec.name == name) jobs

check_name_lem :
    (name : String) (jobs : List Job)
    → check_name name jobs ≡ (if has_name name jobs then some job_exists else none)
unfolding check_name
check_name_lem name [] = refl
check_name_lem name (job ∷ jobs) = ground (arith, check_name_lem name jobs)

has_name_middle :
    (job : Job) (before after : List Job) → has_name job.spec.name (before ++ (job ∷ after)) ≡ true
has_name_middle job [] after = ground (arith, eq_iff job.spec.name job.spec.name)
has_name_middle job (b ∷ before) after = ground (arith, has_name_middle job before after)

-- A job is created exactly when no job of those that are listed has its name, whichever these are, and no
-- stored job can be updated, whatever the update is: the job that is to be updated is one of those that are
-- listed.
pub validate_update-validate_create :
    (job stored : Job) (listed before after : List Job)
    → (validate_create job (ok listed)
        ≡ (if has_name job.spec.name listed then some job_exists else none))
      × (validate_update job (some stored) (ok (before ++ (stored ∷ after))) ≡ some job_exists)
unfolding validate_create validate_update
validate_update-validate_create job stored listed before after = (
  check_name_lem job.spec.name listed,
  ground (
    arith,
    check_name_lem stored.spec.name (before ++ (stored ∷ after)),
    has_name_middle stored before after,
  ),
)
