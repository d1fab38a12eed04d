-- ===== src/Commands/Log/Printed.antt =====
-- The logs of several pods are printed in the order of their times: cmd/ketch/app_log.go.
use Prim.Native.Nat.{ℕ, zero, suc, ◌+◌}
use mathlib.Core.List.{Perm}
use mathlib.Core.List.Perm
use ketch.Base.{
  String, List, [], ◌∷◌, ◌++◌, ltb_ℤ, length, All, Bool-cases, inl, inr, ◌≡◌, refl, sym, ap, subst,
  arith,
}
use ketch.Commands.Log.{
  LogMessage, Source, sources_of, take_earliest, advance, LastTimes, merge, count, print_logs,
}
use ketch.Commands.Log.Merge.{
  Before, IsOrdered, messages, remaining, Before-All, take_earliest-earlier, take_earliest-later,
  take_earliest-IsTaken,
}

-- A property of all sources.
module _ (P : Source → Type 0) where
  abbrev BothHold : Source × List Source → Type 0
  BothHold r = P r.0 × All P r.1

  take_earliest-All :
      (t : Source) (ss : List Source) → P t → All P ss → BothHold (take_earliest t ss)
  unfolding take_earliest
  take_earliest-All t [] p all = (p, tt)
  take_earliest-All t (s ∷ ss) p (q, all) =
      elim (Bool-cases (ltb_ℤ s.message.time t.message.time)) [
        | inl earlier ↦
            (let (r, rest) = take_earliest-All s ss q all in
              subst BothHold (sym (take_earliest-earlier t s ss earlier)) (r, (p, rest)))
        | inr later ↦
            (let (r, rest) = take_earliest-All t ss p all in
              subst BothHold (sym (take_earliest-later t s ss later)) (r, (q, rest)))
      ]

abbrev IsOrderedSource : Source → Type 0
IsOrderedSource s = IsOrdered (messages s)

-- All messages of a source come after a message.
abbrev IsAfter : LogMessage → Source → Type 0
IsAfter m s = All (Before m) (messages s)

advance-remaining :
    (uid : String) (ms : List LogMessage) (others : List Source)
    → remaining (advance uid ms others) ≡ ms ++ remaining others
advance-remaining uid [] others = refl
advance-remaining uid (m ∷ ms) others = refl

advance-IsOrdered :
    (uid : String) (ms : List LogMessage) (others : List Source)
    → IsOrdered ms
    → All IsOrderedSource others
    → All IsOrderedSource (advance uid ms others)
advance-IsOrdered uid [] others o all = all
advance-IsOrdered uid (m ∷ ms) others o all = (o, all)

advance-IsAfter :
    (m : LogMessage) (uid : String) (ms : List LogMessage) (others : List Source)
    → All (Before m) ms
    → All (IsAfter m) others
    → All (IsAfter m) (advance uid ms others)
advance-IsAfter m uid [] others o all = all
advance-IsAfter m uid (n ∷ ms) others o all = (o, all)

advance-count :
    (uid : String) (ms : List LogMessage) (others : List Source)
    → count (advance uid ms others) ≡ length ms + count others
unfolding count
advance-count uid [] others = omega arith
advance-count uid (m ∷ ms) others = omega arith

others-IsAfter :
    (m : LogMessage) (ss : List Source)
    → All (λ s. Before m s.message) ss
    → All IsOrderedSource ss
    → All (IsAfter m) ss
others-IsAfter m [] before ordered = tt
others-IsAfter m (s ∷ ss) (b, before) (o, ordered) =
    ((b, Before-All m s.message s.rest b o.0), others-IsAfter m ss before ordered)

merge-IsAfter :
    (m : LogMessage) (f : ℕ) (sources : List Source) (times : LastTimes)
    → All (IsAfter m) sources
    → All (Before m) (merge f sources times).0
unfolding merge
merge-IsAfter m zero sources times all = tt
merge-IsAfter m (suc f) [] times all = tt
merge-IsAfter m (suc f) (s ∷ ss) times (here, all) =
    let (e, others) = take_earliest s ss in
    let (first, rest) = take_earliest-All (IsAfter m) s ss here all in
    (first.0, merge-IsAfter m f _ _ (advance-IsAfter m e.uid e.rest others first.1 rest))

merge-IsOrdered :
    (f : ℕ) (sources : List Source) (times : LastTimes)
    → All IsOrderedSource sources
    → IsOrdered (merge f sources times).0
unfolding merge
merge-IsOrdered zero sources times all = tt
merge-IsOrdered (suc f) [] times all = tt
merge-IsOrdered (suc f) (s ∷ ss) times (here, all) =
    let (e, others) = take_earliest s ss in
    let (first, rest) = take_earliest-All IsOrderedSource s ss here all in
    let after = others-IsAfter e.message others (take_earliest-IsTaken s ss).before rest in
    (
      merge-IsAfter e.message f _ _ (advance-IsAfter e.message e.uid e.rest others first.0 after),
      merge-IsOrdered f _ _ (advance-IsOrdered e.uid e.rest others first.1 rest),
    )

merge-Perm :
    (f : ℕ) (sources : List Source) (times : LastTimes)
    → count sources ≡ f
    → Perm (merge f sources times).0 (remaining sources)
unfolding merge count
merge-Perm zero [] times h = Perm.rfl
merge-Perm zero (s ∷ ss) times h = absurd (omega (arith, h))
merge-Perm (suc f) [] times h = Perm.rfl
merge-Perm (suc f) (s ∷ ss) times h =
    let (e, others) = take_earliest s ss in
    let taken = take_earliest-IsTaken s ss in
    let left : count (advance e.uid e.rest others) ≡ f =
      omega (arith, h, taken.counted, advance-count e.uid e.rest others) in
    let rest =
      subst (Perm _) (advance-remaining e.uid e.rest others)
        (merge-Perm f (advance e.uid e.rest others) _ left) in
    Perm.trans (Perm.cons e.message rest) taken.perm

-- All messages of the channels.
abbrev pub delivered : List (String × List LogMessage) → List LogMessage
delivered [] = []
delivered (ch ∷ chs) = ch.1 ++ delivered chs

sources_of-remaining :
    (chs : List (String × List LogMessage)) → remaining (sources_of chs) ≡ delivered chs
unfolding sources_of
sources_of-remaining [] = refl
sources_of-remaining ((uid, []) ∷ chs) = sources_of-remaining chs
sources_of-remaining ((uid, m ∷ ms) ∷ chs) =
    ap (λ rest. m ∷ (ms ++ rest)) (sources_of-remaining chs)

sources_of-IsOrdered :
    (chs : List (String × List LogMessage))
    → All (λ ch. IsOrdered ch.1) chs
    → All IsOrderedSource (sources_of chs)
unfolding sources_of
sources_of-IsOrdered [] all = tt
sources_of-IsOrdered ((uid, []) ∷ chs) (here, all) = sources_of-IsOrdered chs all
sources_of-IsOrdered ((uid, m ∷ ms) ∷ chs) (here, all) = (here, sources_of-IsOrdered chs all)

print_logs-Perm : (chs : List (String × List LogMessage)) → Perm (print_logs chs).0 (delivered chs)
unfolding print_logs
print_logs-Perm chs =
    subst (Perm _) (sources_of-remaining chs)
      (merge-Perm (count (sources_of chs)) (sources_of chs) [] refl)

-- When the messages of each pod come in the order of their times, every message of every pod is printed, once
-- each, and all of them in the order of their times.
pub print_logs-IsOrdered :
    (chs : List (String × List LogMessage))
    → All (λ ch. IsOrdered ch.1) chs
    → Perm (print_logs chs).0 (delivered chs) × IsOrdered (print_logs chs).0
unfolding print_logs
print_logs-IsOrdered chs all =
    (print_logs-Perm chs, merge-IsOrdered _ (sources_of chs) [] (sources_of-IsOrdered chs all))
