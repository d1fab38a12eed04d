-- ===== src/Controllers/Workload.antt =====
-- The workloads of internal/controllers/app_controller.go: `workload`, `workloadClient.Get`,
-- `checkWorkloadEvent`. A deployment and a stateful set are read by the same code.
use ketch.Base.{
  String, List, [], ◌∷◌, Option, none, some, ℤ, pos, beq_ℤ, Result, ok, Error, message, ◌>>=◌, ◌==◌,
  ◌&&◌, if◌then◌else◌,
}
use ketch.App.{Time}

-- `condition`
pub record WorkloadCondition : Type 0 where
  pub type : String
  pub reason : String

-- `eventCondition`
pub record EventCondition : Type 0 where
  pub type : String
  pub reason : String
  pub message : String

pub record Workload : Type 0 where
  pub name : String
  pub replicas : ℤ
  pub updated_replicas : ℤ
  pub ready_replicas : ℤ
  pub generation : ℤ
  pub observed_generation : ℤ
  pub conditions : List WorkloadCondition
  pub events : List EventCondition

-- What the client answers for a workload, and for each of its events with its first time.
pub record KubeWorkload : Type 0 where
  pub name : String
  pub creation_timestamp : Time
  pub replicas : Option ℤ
  pub updated_replicas : ℤ
  pub ready_replicas : ℤ
  pub generation : ℤ
  pub observed_generation : ℤ
  pub conditions : List WorkloadCondition

pub record KubeEvent : Type 0 where
  pub first_timestamp : Time
  pub event : EventCondition

unfoldable pub events_at : Time → List KubeEvent → List EventCondition
events_at time [] = []
events_at time (e ∷ es) =
    let rest = events_at time es in if beq_ℤ e.first_timestamp time then e.event ∷ rest else rest

-- `Get`
unfoldable pub get_workload :
    Result KubeWorkload → (String → Result (List KubeEvent)) → Result Workload
unfolding events_at
get_workload workload events = workload >>= λ o. events o.name >>= λ es. ok (record {
  name = o.name;
  replicas = elim o.replicas [ none ↦ pos 0 | some n ↦ n ];
  updated_replicas = o.updated_replicas;
  ready_replicas = o.ready_replicas;
  generation = o.generation;
  observed_generation = o.observed_generation;
  conditions = o.conditions;
  events = events_at o.creation_timestamp es;
})

-- `checkWorkloadEvent`
unfoldable pub check_workload_event : List EventCondition → Option Error
check_workload_event [] = none
check_workload_event (e ∷ es) =
    if e.type == "Warning" && e.reason == "FailedCreate"
    then some (message e.message)
    else check_workload_event es
