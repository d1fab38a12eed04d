-- ===== src/Commands/Job.antt =====
-- cmd/ketch/job_deploy.go, job_remove.go, job_list.go and job_export.go.
pub mod Laws
use Prim.Native.Nat.{zero}
use ketch.Base.{
  String, Bool, true, false, List, [], ◌∷◌, ◌++◌, ℤ, pos, Option, none, some, Result, ok, err,
  Error, message, wrap, job_exists, ◌==◌, ◌||◌, if◌then◌else◌, concat, contains,
}
use ketch.Jobs.{Job, JobSpec}

abbrev default_job_version : String
default_job_version = "v1"

abbrev default_job_parallelism : ℤ
default_job_parallelism = pos 1

abbrev default_job_restart_policy : String
default_job_restart_policy = "Never"

-- The defaults of a text and of a number.
abbrev text_or : String → String → String
text_or default text = if text == "" then default else text

abbrev number_or : ℤ → ℤ → ℤ
number_or default (pos zero) = default
number_or default n = n

-- `setJobSpecDefaults`
unfoldable pub set_job_spec_defaults : JobSpec → JobSpec
set_job_spec_defaults spec =
    let parallelism = number_or default_job_parallelism spec.parallelism in
    record spec {
      type = "Job";
      version = text_or default_job_version spec.version;
      parallelism = parallelism;
      completions = number_or parallelism spec.completions;
      policy = record spec.policy {
        restart_policy = text_or default_job_restart_policy spec.policy.restart_policy;
      };
    }

-- `validateJobSpec`
unfoldable pub validate_job_spec : JobSpec → Option Error
validate_job_spec spec =
    if spec.name == "" || spec.namespace == ""
    then some (message "job.name and job.namespace are required")
    else none

-- The results of controllerutil.CreateOrUpdate.
pub data OperationResult : Type 0 where
  operation_none operation_created operation_updated : OperationResult

-- What `ketch job deploy` asks of its surroundings: the file, its decoding, CreateOrUpdate of the job of a
-- name with a spec, and the text of an error.
pub record JobClient : Type 0 where
  pub read_file : String → Result String
  pub unmarshal : String → Result JobSpec
  pub create_or_update : String → JobSpec → Result OperationResult
  pub error_text : Error → String

module _ (client : JobClient) where
  -- The answer of CreateOrUpdate.
  abbrev deployed : JobSpec → Result OperationResult → Option Error
  deployed spec (err e) =
      if contains (client.error_text job_exists) (client.error_text e)
      then some job_exists
      else some e
  deployed spec (ok operation_none) =
      some (message (concat ("job \"" ∷ spec.name ∷ "\" already exists and is unchanged" ∷ [])))
  deployed spec (ok _) = none

  -- `jobDeploy` from its call of setJobSpecDefaults on
  unfoldable pub deploy_spec : JobSpec → Option Error
  unfolding validate_job_spec contains
  deploy_spec spec = elim (validate_job_spec spec) [
    | some e ↦ some e
    | none ↦ deployed spec (client.create_or_update spec.name spec)
  ]

  -- `jobDeploy`
  unfoldable pub job_deploy : String → Option Error
  unfolding deploy_spec set_job_spec_defaults
  job_deploy filename = elim (client.read_file filename) [
    | err e ↦ some e
    | ok text ↦ elim (client.unmarshal text) [
      | err e ↦ some e
      | ok spec ↦ deploy_spec (set_job_spec_defaults spec)
    ]
  ]

-- `jobRemove`, from what the client's Get answers; `delete` is its Delete.
unfoldable pub job_remove : Result Job → (Job → Option Error) → Option Error
job_remove get delete = elim get [
  | err e ↦ some e
  | ok job ↦ elim (delete job) [ none ↦ none | some e ↦ some (wrap "failed to delete job" e) ]
]

-- `jobExport`, whose output is the spec; `write` is output.WriteToFileOrOut.
unfoldable pub job_export : Result Job → (JobSpec → Option Error) → Option Error
job_export get write = elim get [ err e ↦ some e | ok job ↦ write job.spec ]

-- `jobListOutput`
pub record JobListOutput : Type 0 where
  pub name : String
  pub version : String
  pub namespace : String
  pub description : String

-- `generateJobListOutput`
unfoldable pub generate_job_list_output : List Job → List JobListOutput
generate_job_list_output [] = []
generate_job_list_output (job ∷ jobs) =
    record {
      name = job.name;
      version = job.spec.version;
      namespace = job.spec.namespace;
      description = job.spec.description;
    }
    ∷ generate_job_list_output jobs

-- A name, once for each filter that it contains.
unfoldable pub matches : String → List String → List String
unfolding contains
matches name [] = []
matches name (filter ∷ filters) =
    if contains filter name then name ∷ matches name filters else matches name filters

-- `jobListNames`, of the jobs that the client lists
unfoldable pub job_names : List String → List Job → List String
unfolding matches
job_names filters [] = []
job_names [] (job ∷ jobs) = job.name ∷ job_names [] jobs
job_names (f ∷ fs) (job ∷ jobs) = matches job.name (f ∷ fs) ++ job_names (f ∷ fs) jobs

unfoldable pub job_list_names : Result (List Job) → List String → Result (List String)
unfolding job_names
job_list_names jobs filters = elim jobs [
  | err e ↦ err (wrap "failed to list jobs" e)
  | ok js ↦ ok (job_names filters js)
]
