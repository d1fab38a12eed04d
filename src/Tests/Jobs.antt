-- ===== src/Tests/Jobs.antt =====
-- Jobs that are validated, reconciled, deployed, exported and listed.
use ketch.Base.{
  String, true, false, [], ◌∷◌, none, some, pos, ok, job_exists, message, ◌==◌, ◌≡◌, refl, ◌⊎◌,
  if◌then◌else◌,
}
use ketch.Jobs.{Job, JobSpec, job_condition}
use ketch.Commands.Job.{
  JobClient, operation_none, operation_updated, set_job_spec_defaults, validate_job_spec,
  job_deploy, job_export, job_list_names,
}
use ketch.Commands.Job.Laws.{job_deploy-job_export}
use ketch.Jobs.Webhook.{has_name, validate_create, validate_update, validate_update-validate_create}
use ketch.Jobs.Controller.{JobWorld, reconcile_job_request}
use ketch.Jobs.Controller.Outcome.{IsInstalled, IsRefused, reconcile_job_request-outcome}

abbrev job : String → String → Job
job name namespace = record {
  name = name;
  annotations = [];
  finalizers = [];
  generation = pos 1;
  deletion_timestamp = none;
  spec = record {
    version = "v1";
    type = "Job";
    name = name;
    description = "";
    parallelism = pos 1;
    completions = pos 1;
    suspend = false;
    backoff_limit = none;
    containers = [];
    policy = record { restart_policy = "Never"; concurrency_policy = "" };
    namespace = namespace;
    schedule = "";
    starting_deadline_seconds = none;
    successful_jobs_history_limit = none;
    failed_jobs_history_limit = none;
  };
  status = record {
    conditions = [];
    active = false;
    last_schedule_time = none;
    last_successful_time = none;
  };
}

abbrev pi : Job
pi = job "pi" "default"

validate_update-validate_create_example :
    (validate_create (job "pi2" "default") (ok (pi ∷ []))
      ≡ (if has_name "pi2" (pi ∷ []) then some job_exists else none))
    × (validate_update (job "pi2" "default") (some pi) (ok (job "e" "default" ∷ pi ∷ []))
        ≡ some job_exists)
validate_update-validate_create_example =
    validate_update-validate_create (job "pi2" "default") pi (pi ∷ []) (job "e" "default" ∷ []) []

abbrev world : JobWorld
world = record {
  templates = λ name. ok [];
  helm = λ namespace. none;
  update_chart = λ chart config. none;
  delete_chart = λ name. none;
  update = λ j. none;
  update_status = λ j. none;
  time = pos 100;
  error_text = λ e. "error";
  format = λ text. text;
  group = "theketch.io";
  contains_finalizer = λ j. true;
  add_finalizer = λ j. j;
  remove_finalizer = λ j. j;
}

-- A job without a namespace is refused, and another is installed.
job_tests :
    (IsRefused (reconcile_job_request world (ok (job "pi" ""))))
    × IsInstalled (reconcile_job_request world (ok pi))
unfolding reconcile_job_request job_condition
job_tests =
    (((_, refl, (_, refl, refl)), (_, refl), refl), ((_, refl, (_, refl, refl)), refl, (_, refl)))

reconcile_job_request-outcome_example :
    IsInstalled (reconcile_job_request world (ok pi))
    ⊎ IsRefused (reconcile_job_request world (ok pi))
reconcile_job_request-outcome_example = reconcile_job_request-outcome world pi refl refl (λ j. refl)

-- A spec with no more than a name and a namespace.
abbrev scarce : JobSpec
scarce = record pi.spec {
  version = "";
  type = "";
  parallelism = pos 0;
  completions = pos 0;
  policy = record { restart_policy = ""; concurrency_policy = "" };
}

-- The API server has the job `pi`, and a file with its spec is decoded.
abbrev client : JobClient
client = record {
  read_file = λ name. ok "name: pi";
  unmarshal = λ text. ok pi.spec;
  create_or_update =
      λ name spec. ok (if spec.type == "Job" then operation_none else operation_updated);
  error_text = λ e. "error";
}

-- The defaults fill the scarce spec, a spec without a namespace is refused, and the names of jobs are
-- listed once for each filter.
job_commands :
    (set_job_spec_defaults scarce ≡ pi.spec)
    × (validate_job_spec (job "pi" "").spec
        ≡ some (message "job.name and job.namespace are required"))
    × (job_list_names (ok (pi ∷ job "e" "default" ∷ [])) ("p" ∷ "i" ∷ []) ≡ ok ("pi" ∷ "pi" ∷ []))
    × (job_list_names (ok (pi ∷ job "e" "default" ∷ [])) [] ≡ ok ("pi" ∷ "e" ∷ []))
unfolding set_job_spec_defaults validate_job_spec job_list_names
job_commands = (refl, refl, refl, refl)

scarce-defaults : pi.spec ≡ set_job_spec_defaults scarce
unfolding set_job_spec_defaults
scarce-defaults = refl

scarce-valid : validate_job_spec scarce ≡ none
unfolding validate_job_spec
scarce-valid = refl

job_deploy-job_export_example :
    (job_export (ok pi) (λ spec. none) ≡ none)
    × (job_deploy client "pi.yaml" ≡ some (message "job \"pi\" already exists and is unchanged"))
job_deploy-job_export_example =
    job_deploy-job_export client "pi.yaml" "name: pi" scarce pi (λ spec. none) scarce-defaults
      scarce-valid refl refl refl
