-- ===== src/Tests/Log.antt =====
-- The logs of two pods.
use mathlib.Core.List.{Perm}
use ketch.Base.{
  String, true, false, List, [], ◌∷◌, none, some, pos, ok, Option, ◌≡◌, refl, ◌==◌, if◌then◌else◌,
  map,
}
use ketch.App.{Time}
use ketch.Commands.Log.{LogMessage, LogPod, print_logs, channels_of, format, follow_pod, changed}
use ketch.Commands.Log.Merge.{IsOrdered}
use ketch.Commands.Log.Printed.{delivered, print_logs-IsOrdered}
use ketch.Deploy.{or_zero}

abbrev parse_time : String → Option Time
parse_time text =
    if text == "t1"
    then some (pos 1)
    else if text == "t2"
    then some (pos 2)
    else if text == "t3"
    then some (pos 3)
    else none

abbrev pod : String → LogPod
pod uid = record {
  uid = uid;
  name = "hello-web-1-x";
  containers = "istio-proxy" ∷ "hello-web-1" ∷ [];
  container_statuses = ("hello-web-1", true) ∷ [];
}

abbrev channels : List (String × List LogMessage)
unfolding channels_of
channels = or_zero [] (
    channels_of parse_time (
      (pod "a", "t1 up" ∷ "t3 ready now" ∷ [])
      ∷ (pod "b", "t2 up" ∷ "t2 ready" ∷ "nospace" ∷ [])
      ∷ []))

printed : map (λ m. m.msg) (print_logs channels).0 ≡ "up" ∷ "up" ∷ "ready" ∷ "ready now" ∷ []
unfolding print_logs channels
printed = refl

print_logs-IsOrdered_example :
    Perm (print_logs channels).0 (delivered channels) × IsOrdered (print_logs channels).0
unfolding channels
print_logs-IsOrdered_example =
    print_logs-IsOrdered channels (((refl, tt), (tt, tt)), (((refl, tt), (tt, tt)), tt))

log_tests :
    (format
        (λ t. "t")
        true
        true
        (record { time = pos 1; msg = "up"; pod_name = "p"; container_name = "c" })
      ≡ "t [p/c] up")
    × (follow_pod false (changed (pod "a")) [] ≡ ok ("a" ∷ []))
    × (follow_pod false (changed (pod "a")) ("a" ∷ []) ≡ ok ("a" ∷ []))
unfolding format follow_pod
log_tests = (refl, refl, refl)
