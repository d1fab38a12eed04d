-- ===== src/Jobs.antt =====
-- internal/api/v1beta1/job_types.go: the data model of a job, and its conditions. Of the metadata of
-- Kubernetes the fields are kept that the code reads.
pub mod Webhook
pub mod Controller
use ketch.Base.{String, Bool, List, Option, none, some, ℤ, Dict}
use ketch.App.{Time, Condition, ConditionStatus}
use ketch.App.Status.{set_in, find_condition}

-- v1.RestartPolicy and batchv1.ConcurrencyPolicy are texts.
pub record Policy : Type 0 where
  pub restart_policy : String
  pub concurrency_policy : String

pub record Container : Type 0 where
  pub name : String
  pub image : String
  pub command : List String

pub record JobSpec : Type 0 where
  pub version : String
  pub type : String
  pub name : String
  pub description : String
  pub parallelism : ℤ
  pub completions : ℤ
  pub suspend : Bool
  pub backoff_limit : Option ℤ
  pub containers : List Container
  pub policy : Policy
  pub namespace : String
  pub schedule : String
  pub starting_deadline_seconds : Option ℤ
  pub successful_jobs_history_limit : Option ℤ
  pub failed_jobs_history_limit : Option ℤ

pub record JobStatus : Type 0 where
  pub conditions : List Condition
  pub active : Bool
  pub last_schedule_time : Option Time
  pub last_successful_time : Option Time

-- The name, the annotations, the finalizers, the generation and the time of deletion are of the object's
-- metadata.
pub record Job : Type 0 where
  pub name : String
  pub annotations : Dict String
  pub finalizers : List String
  pub generation : ℤ
  pub deletion_timestamp : Option Time
  pub spec : JobSpec
  pub status : JobStatus

-- `JobStatus.Condition`
unfoldable pub job_condition : String → JobStatus → Option Condition
unfolding find_condition
job_condition t s = find_condition t s.conditions

-- `Job.SetCondition`, whose loop is that of `App.SetCondition`
unfoldable pub set_job_condition : String → ConditionStatus → String → Time → Job → Job
unfolding set_in
set_job_condition t status message time job = record job {
  status = record job.status {
    conditions =
        set_in
          (record {
            type = t;
            status = status;
            last_transition_time = some time;
            message = message;
          })
          job.status.conditions;
  };
}
