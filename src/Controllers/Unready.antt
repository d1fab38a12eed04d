-- ===== src/Controllers/Unready.antt =====
-- createDeployTimeoutError and newInvalidPodPhaseError of internal/controllers/app_controller.go: the error of
-- a rollout that takes too long.
use ketch.Base.{
  String, Bool, List, [], ◌∷◌, Option, none, some, Result, ok, err, Error, message, any, ◌==◌, ◌&&◌,
  not, if◌then◌else◌, concat,
}

-- A listed pod: its phase, its status message as `%q` prints it, if it is not empty, the types and statuses of
-- its conditions, and the messages of its events, or the error of listing them.
pub record ListedPod : Type 0 where
  pub name : String
  pub phase : String
  pub status_message : Option String
  pub conditions : List (String × String)
  pub events : Result (List String)

-- The message of the last event, after a separator.
unfoldable pub last_event : List String → String
last_event [] = ""
last_event (m ∷ []) = concat (" - last event: " ∷ m ∷ [])
last_event (m ∷ n ∷ ms) = last_event (n ∷ ms)

-- The text of `newInvalidPodPhaseError`; a phase needs no escape in `%q`.
unfoldable pub invalid_pod_phase : ListedPod → String
unfolding last_event
invalid_pod_phase pod = concat (
    "invalid pod phase \""
    ∷ pod.phase
    ∷ "\""
    ∷ elim pod.status_message [ none ↦ "" | some text ↦ concat ("(" ∷ text ∷ ")" ∷ []) ]
    ∷ elim pod.events [ err e ↦ "" | ok messages ↦ last_event messages ]
    ∷ [])

-- Whether a pod's condition tells that it is not ready.
abbrev pub is_unready : ListedPod → Bool
is_unready pod = any (λ c. c.0 == "Ready" && not (c.1 == "True")) pod.conditions

-- strings.Join of the pods' messages, after a separator
unfoldable pub unready_texts : String → List ListedPod → String
unfolding invalid_pod_phase
unready_texts before [] = ""
unready_texts before (pod ∷ pods) =
    let here = concat (before ∷ "Pod " ∷ pod.name ∷ ": " ∷ invalid_pod_phase pod ∷ []) in
    let rest = unready_texts ", " pods in
    let skipped = unready_texts before pods in
    if is_unready pod then concat (here ∷ rest ∷ []) else skipped

-- `createDeployTimeoutError`, of the pods that the client lists; `elapsed` is the duration as `%v` prints it.
unfoldable pub create_deploy_timeout_error : String → String → Result (List ListedPod) → Error
unfolding unready_texts
create_deploy_timeout_error label elapsed (err e) = e
create_deploy_timeout_error label elapsed (ok pods) = message (
    concat (
      "timeout waiting "
      ∷ label
      ∷ " after "
      ∷ elapsed
      ∷ " waiting for units"
      ∷ unready_texts ": " pods
      ∷ []))
