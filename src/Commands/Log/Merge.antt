-- ===== src/Commands/Log/Merge.antt =====
-- The source with the earliest message, of the loop of `watchLogs` in cmd/ketch/app_log.go.
use Prim.Native.Nat.{◌+◌}
use mathlib.Core.List.{Perm, perm_append_comm, append_assoc}
use mathlib.Core.List.Perm
use ketch.Base.{
  true, false, List, [], ◌∷◌, ◌++◌, leb_ℤ, ltb_ℤ, length, All, Bool-cases, inl, inr, ◌≡◌, refl, sym,
  subst, arith,
}
use ketch.Commands.Log.{LogMessage, Source, take_earliest, count}

-- One message is not later than another.
abbrev pub Before : LogMessage → LogMessage → Type 0
Before m n = leb_ℤ m.time n.time ≡ true

abbrev pub IsOrdered : List LogMessage → Type 0
IsOrdered [] = Unit
IsOrdered (m ∷ ms) = All (Before m) ms × IsOrdered ms

abbrev pub messages : Source → List LogMessage
messages s = s.message ∷ s.rest

-- All messages that are left.
abbrev pub remaining : List Source → List LogMessage
remaining [] = []
remaining (s ∷ ss) = messages s ++ remaining ss

Before-trans : (l m n : LogMessage) → Before l m → Before m n → Before l n
Before-trans l m n h k = ground (arith, h, k)

pub Before-All :
    (l m : LogMessage) (ns : List LogMessage) → Before l m → All (Before m) ns → All (Before l) ns
Before-All l m [] h all = tt
Before-All l m (n ∷ ns) h (first, all) = (Before-trans l m n h first, Before-All l m ns h all)

move : (xs ys zs : List LogMessage) → Perm (xs ++ (ys ++ zs)) (ys ++ (xs ++ zs))
move xs ys zs =
    let h : Perm ((xs ++ ys) ++ zs) ((ys ++ xs) ++ zs) =
      Perm.append_right zs (perm_append_comm xs ys) in
    rw (append_assoc, append_assoc) at h

-- What `take_earliest` returns: nothing is lost, and no other source is earlier.
pub record IsTaken (t : Source) (ss : List Source) (r : Source × List Source) : Type 0 where
  pub perm : Perm (messages r.0 ++ remaining r.1) (messages t ++ remaining ss)
  pub least : Before r.0.message t.message
  pub before : All (λ s. Before r.0.message s.message) r.1
  pub counted : length r.0.rest + count r.1 ≡ length t.rest + count ss

pub take_earliest-earlier :
    (t s : Source) (ss : List Source)
    → ltb_ℤ s.message.time t.message.time ≡ true
    → take_earliest t (s ∷ ss) ≡ ((take_earliest s ss).0, t ∷ (take_earliest s ss).1)
unfolding take_earliest
take_earliest-earlier t s ss h = rw (take_earliest, h) refl

pub take_earliest-later :
    (t s : Source) (ss : List Source)
    → ltb_ℤ s.message.time t.message.time ≡ false
    → take_earliest t (s ∷ ss) ≡ ((take_earliest t ss).0, s ∷ (take_earliest t ss).1)
unfolding take_earliest
take_earliest-later t s ss h = rw (take_earliest, h) refl

Before-earlier : (m n : LogMessage) → ltb_ℤ m.time n.time ≡ true → Before m n
Before-earlier m n h = ground (arith, h)

Before-later : (m n : LogMessage) → ltb_ℤ m.time n.time ≡ false → Before n m
Before-later m n h = ground (arith, h)

pub take_earliest-IsTaken : (t : Source) (ss : List Source) → IsTaken t ss (take_earliest t ss)
unfolding take_earliest count
take_earliest-IsTaken t [] = record {
  perm = Perm.rfl;
  least = ground arith;
  before = tt;
  counted = refl;
}
take_earliest-IsTaken t (s ∷ ss) = elim (Bool-cases (ltb_ℤ s.message.time t.message.time)) [
  | inl earlier ↦
      (let (e, others) = take_earliest s ss in
        let ih = take_earliest-IsTaken s ss in
        let least =
          Before-trans e.message s.message t.message ih.least
            (Before-earlier s.message t.message earlier) in
        subst (IsTaken t (s ∷ ss)) (sym (take_earliest-earlier t s ss earlier)) (record {
          perm =
              Perm.trans (move (messages e) (messages t) (remaining others))
                (Perm.append_left (messages t) ih.perm);
          least = least;
          before = (least, ih.before);
          counted = omega (arith, ih.counted);
        }))
  | inr later ↦
      (let (e, others) = take_earliest t ss in
        let ih = take_earliest-IsTaken t ss in
        subst (IsTaken t (s ∷ ss)) (sym (take_earliest-later t s ss later)) (record {
          perm = Perm.trans (move (messages e) (messages s) (remaining others)) (
              Perm.trans (Perm.append_left (messages s) ih.perm)
                (move (messages s) (messages t) (remaining ss)));
          least = ih.least;
          before = (
            Before-trans e.message t.message s.message ih.least
                (Before-later s.message t.message later),
            ih.before,
          );
          counted = omega (arith, ih.counted);
        }))
]
