-- ===== src/Commands/Log.antt =====
-- cmd/ketch/app_log.go: the logs of an app's pods. A channel of messages is the list of what it delivers
-- before it is closed; the text of a log stream is the list of the lines that bufio's ReadString returns.
-- Go visits the entries of a map in any order, here in the order of the list.
pub mod Merge
pub mod Printed
use Prim.Native.Nat.{ℕ, zero, suc, ◌+◌}
use ketch.Base.{
  String, Bool, true, false, List, [], ◌∷◌, ◌++◌, Option, none, some, ltb_ℤ, beq_ℤ, Result, ok, err,
  Error, message, panic, ◌>>=◌, ◌==◌, ◌||◌, if◌then◌else◌, any, concat, length, split_once,
  has_prefix,
}
use ketch.App.{Time}

-- The parts of a pod that the command reads: its containers, and of their statuses the name and whether
-- they run.
pub record LogPod : Type 0 where
  pub uid : String
  pub name : String
  pub containers : List String
  pub container_statuses : List (String × Bool)

-- `ketchContainerName`
unfoldable pub ketch_container_name : LogPod → Result String
unfolding has_prefix
ketch_container_name pod = go pod.containers
  where
    go : List String → Result String
    go [] = err (message (concat ("pod " ∷ pod.name ∷ " doesn't have an app container" ∷ [])))
    go (c ∷ cs) = if has_prefix pod.name c then ok c else go cs

-- `isContainerRunning`
unfoldable pub is_container_running : String → List (String × Bool) → Bool
is_container_running name [] = false
is_container_running name ((c, running) ∷ cs) =
    if c == name then running else is_container_running name cs

-- `logMessage`, of its pod the name
pub record LogMessage : Type 0 where
  pub time : Time
  pub msg : String
  pub pod_name : String
  pub container_name : String

-- `Format`; `format_time` is the format RFC3339Nano.
unfoldable pub format : (Time → String) → Bool → Bool → LogMessage → String
format format_time prefix timestamps m = concat (
    (if timestamps then format_time m.time ∷ " " ∷ [] else [])
    ++ (if prefix then "[" ∷ m.pod_name ∷ "/" ∷ m.container_name ∷ "] " ∷ [] else [])
    ++ (m.msg ∷ []))

module _ (parse_time : String → Option Time) (pod : LogPod) (container_name : String) where
  -- `readString` of a line; a line without a space is an index out of range.
  unfoldable pub read_string : String → Result LogMessage
  unfolding split_once
  read_string line = elim (split_once " " line) [
    | none ↦ err panic
    | some (timestamp, msg) ↦ elim (parse_time timestamp) [
      | none ↦ err (message "unknown time format")
      | some time ↦
          ok (record {
            time = time;
            msg = msg;
            pod_name = pod.name;
            container_name = container_name;
          })
    ]
  ]

  -- The loop of `readLogs`: the messages up to the end or to the first error.
  unfoldable pub read_logs : List String → List LogMessage × Option Error
  unfolding read_string
  read_logs [] = ([], none)
  read_logs (line ∷ lines) =
      let rest = read_logs lines in
      elim (read_string line) [ err e ↦ ([], some e) | ok m ↦ (m ∷ rest.0, rest.1) ]

-- The loop of `streamLogs` over the messages of a stream: those that are not later than the last one are
-- left out.
unfoldable pub stream_logs : Time → List LogMessage → List LogMessage
stream_logs last_time [] = []
stream_logs last_time (m ∷ ms) =
    let skipped = stream_logs last_time ms in
    let shown = stream_logs m.time ms in
    if ltb_ℤ m.time last_time || beq_ℤ m.time last_time then skipped else m ∷ shown

-- A pod with its entry in `messages` and what its channel in `msgChs` still delivers. `watchLogs` removes a
-- pod from both maps at once.
pub record Source : Type 0 where
  pub uid : String
  pub message : LogMessage
  pub rest : List LogMessage

-- The loop that fills `messages`.
unfoldable pub sources_of : List (String × List LogMessage) → List Source
sources_of [] = []
sources_of ((uid, []) ∷ chs) = sources_of chs
sources_of ((uid, m ∷ ms) ∷ chs) = record { uid = uid; message = m; rest = ms } ∷ sources_of chs

-- The loop for the target: the first source of those with the least time, and the others.
unfoldable pub take_earliest : Source → List Source → Source × List Source
take_earliest target [] = (target, [])
take_earliest target (s ∷ ss) = elim (ltb_ℤ s.message.time target.message.time) [
  | true ↦ (let (earliest, others) = take_earliest s ss in (earliest, target ∷ others))
  | false ↦ (let (earliest, others) = take_earliest target ss in (earliest, s ∷ others))
]

-- The target gets the next message of its channel, or is removed.
abbrev pub advance : String → List LogMessage → List Source → List Source
advance uid [] others = others
advance uid (m ∷ ms) others = record { uid = uid; message = m; rest = ms } ∷ others

-- `timeOfLastMessage[target] = m.time`, the last one first
abbrev pub LastTimes : Type 0
LastTimes = List (String × Time)

-- The loop of `watchLogs` that prints the messages, and the times of the last messages.
unfoldable pub merge : ℕ → List Source → LastTimes → List LogMessage × LastTimes
unfolding take_earliest
merge zero sources times = ([], times)
merge (suc f) [] times = ([], times)
merge (suc f) (s ∷ ss) times =
    let (target, others) = take_earliest s ss in
    let (printed, times') =
      merge f (advance target.uid target.rest others) ((target.uid, target.message.time) ∷ times) in
    (target.message ∷ printed, times')

-- As many rounds as there are messages.
unfoldable pub count : List Source → ℕ
count [] = 0
count (s ∷ ss) = suc (length s.rest) + count ss

-- The messages that are printed, from the channels of the pods.
unfoldable pub print_logs : List (String × List LogMessage) → List LogMessage × LastTimes
unfolding merge sources_of count
print_logs chs = let sources = sources_of chs in merge (count sources) sources []

-- The first loop of `watchLogs`: the channel of each pod, whose stream has the given lines.
unfoldable pub channels_of :
    (String → Option Time) → List (LogPod × List String) → Result (List (String × List LogMessage))
unfolding ketch_container_name read_logs
channels_of parse_time [] = ok []
channels_of parse_time ((pod, lines) ∷ pods) = ketch_container_name pod >>= λ name.
    channels_of parse_time pods >>= λ chs.
    ok ((pod.uid, (read_logs parse_time pod name lines).0) ∷ chs)

-- What the watch of the pods delivers.
pub data PodEvent : Type 0 where
  changed deleted : LogPod → PodEvent

-- A round of the loop that follows the pods: the pods whose logs are streamed.
unfoldable pub follow_pod : Bool → PodEvent → List String → Result (List String)
unfolding ketch_container_name is_container_running
follow_pod ignore_errors (changed pod) streamed =
    if any (λ uid. uid == pod.uid) streamed then ok streamed else (elim (ketch_container_name pod) [
      | err e ↦ if ignore_errors then ok streamed else err e
      | ok name ↦ ok (
          if is_container_running name pod.container_statuses then pod.uid ∷ streamed else streamed)
    ])
follow_pod ignore_errors (deleted pod) streamed = ok (without streamed)
  where
    without : List String → List String
    without [] = []
    without (uid ∷ uids) = let rest = without uids in if uid == pod.uid then rest else uid ∷ rest
