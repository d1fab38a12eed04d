-- ===== src/Controllers/Cancel/Tracking.antt =====
-- A goroutine stays tracked until its name is replaced or its own cleanup runs.
use ketch.Base.{
  ℕ, suc, ◌^◌, ◌<◌, ◌≤◌, String, false, List, [], ◌∷◌, none, some, pos, add_int-pos, beq_ℤ, lookup,
  lookup-insert, lookup-delete, ◌==◌, ◌≡◌, refl, ap, sym, ◌∙◌, arith, eq_iff, inl, inr, ◌⊎◌,
  Bool-cases, length,
}
use ketch.Controllers.Cancel.{
  CancelMap, CleanupFunc, new_cancel_map, replace_and_cancel_previous, generation_of, cleanup,
}

-- The interleavings of the operations, with the cleanup functions that were returned so far.
pub data Reachable : CancelMap → List CleanupFunc → Type 0 where
  start : Reachable new_cancel_map []
  replace :
      {cm : CancelMap} {fs : List CleanupFunc} (name : String) (cancel : ℕ)
      → Reachable cm fs
      → Reachable
          (replace_and_cancel_previous name cancel cm).0
          ((replace_and_cancel_previous name cancel cm).1 ∷ fs)
  clean :
      {cm : CancelMap} {fs : List CleanupFunc} (f : CleanupFunc)
      → Reachable cm fs
      → Reachable (cleanup f cm) fs

-- One of the functions returned so far.
abbrev pub Returned : CleanupFunc → List CleanupFunc → Type 0
Returned f [] = ⊥
Returned f (g ∷ gs) = (f ≡ g) ⊎ Returned f gs

-- The map tracks the goroutine of the function.
pub record IsTracked (f : CleanupFunc) (cm : CancelMap) : Type 0 where
  pub in_map : lookup f.name cm.cancel_map ≡ some f.cancel
  pub in_generations : lookup f.name cm.cancel_generation ≡ some f.generation

-- The steps that leave the goroutine of `f` alone: other names are replaced, and functions of other
-- generations run.
pub data Others (f : CleanupFunc) : CancelMap → CancelMap → Type 0 where
  here : {cm : CancelMap} → Others f cm cm
  replace_other :
      {cm cm' : CancelMap} (name : String) (cancel : ℕ)
      → Others f cm cm'
      → (name == f.name) ≡ false
      → Others f cm (replace_and_cancel_previous name cancel cm').0
  clean_other :
      {cm cm' : CancelMap} (g : CleanupFunc)
      → Others f cm cm'
      → beq_ℤ f.generation g.generation ≡ false
      → Others f cm (cleanup g cm')

replace-IsTracked :
    (name : String) (cancel : ℕ) (cm : CancelMap)
    → IsTracked
        (replace_and_cancel_previous name cancel cm).1
        (replace_and_cancel_previous name cancel cm).0
unfolding replace_and_cancel_previous
replace-IsTracked name cancel cm = record {
  in_map = ground (arith, lookup-insert name name cancel cm.cancel_map, eq_iff name name);
  in_generations =
      ground (arith, lookup-insert name name cm.generation cm.cancel_generation, eq_iff name name);
}

replace_other-IsTracked :
    (f : CleanupFunc) (name : String) (cancel : ℕ) (cm : CancelMap)
    → IsTracked f cm
    → (name == f.name) ≡ false
    → IsTracked f (replace_and_cancel_previous name cancel cm).0
unfolding replace_and_cancel_previous
replace_other-IsTracked f name cancel cm t other = record {
  in_map = ground (arith, lookup-insert name f.name cancel cm.cancel_map, t.in_map, other);
  in_generations = ground (
    arith,
    lookup-insert name f.name cm.generation cm.cancel_generation,
    t.in_generations,
    other,
  );
}

clean_other-IsTracked :
    (f g : CleanupFunc) (cm : CancelMap)
    → IsTracked f cm
    → beq_ℤ f.generation g.generation ≡ false
    → IsTracked f (cleanup g cm)
unfolding cleanup generation_of
clean_other-IsTracked f g cm t other = elim (Bool-cases (g.name == f.name)) [
  | inl same ↦
      let e : f.name ≡ g.name = sym ((eq_iff g.name f.name).0 same) in
      let kept = ap (λ n. lookup n cm.cancel_generation) (sym e) ∙ t.in_generations in
      record {
        in_map = ground (arith, kept, other, t.in_map);
        in_generations = ground (arith, kept, other, t.in_generations);
      }
  | inr another ↦ record {
    in_map = ground (arith, t.in_map, lookup-delete g.name f.name cm.cancel_map, another);
    in_generations =
        ground (arith, t.in_generations, lookup-delete g.name f.name cm.cancel_generation, another);
  }
]

pub Others-IsTracked :
    {f : CleanupFunc} {cm cm' : CancelMap} → Others f cm cm' → IsTracked f cm → IsTracked f cm'
Others-IsTracked here t = t
Others-IsTracked (replace_other name cancel run other) t =
    replace_other-IsTracked _ name cancel _ (Others-IsTracked run t) other
Others-IsTracked (clean_other g run other) t =
    clean_other-IsTracked _ g _ (Others-IsTracked run t) other

-- The generations of the functions returned so far, and the next one.
record Generations (cm : CancelMap) (fs : List CleanupFunc) : Type 0 where
  next : cm.generation ≡ pos (suc (length fs))
  used : (f : CleanupFunc) → Returned f fs → (n : ℕ) × (f.generation ≡ pos n) × (n ≤ length fs)

Reachable-Generations :
    {cm : CancelMap} {fs : List CleanupFunc}
    → Reachable cm fs
    → suc (length fs) < 2 ^ 63
    → Generations cm fs
unfolding replace_and_cancel_previous cleanup
Reachable-Generations start h = record { next = refl; used = λ f r. absurd r }
Reachable-Generations {fs = fs'} (replace {cm} {fs} name cancel run) h =
    let p = Reachable-Generations run (omega arith) in
    record {
      next = rw p.next (add_int-pos (suc (length fs)) 1 (omega arith) ∙ ap pos (omega arith));
      used = λ f r. elim r [
        | inl e ↦ (suc (length fs), ap (λ g. g.generation) e ∙ p.next, omega arith)
        | inr r' ↦ (let (n, e, le) = p.used f r' in (n, e, omega arith))
      ];
    }
Reachable-Generations (clean f run) h =
    let p = Reachable-Generations run h in record { next = ground (arith, p.next); used = p.used }

older :
    (name : String) (cancel : ℕ) (cm : CancelMap) (g : CleanupFunc) (n m : ℕ)
    → cm.generation ≡ pos (suc m)
    → g.generation ≡ pos n
    → n ≤ m
    → beq_ℤ (replace_and_cancel_previous name cancel cm).1.generation g.generation ≡ false
unfolding replace_and_cancel_previous
older name cancel cm g n m a b le = ground (arith, a, b)

-- A goroutine that replaces another stays tracked whichever of the functions returned before is called,
-- and whatever is done to other names and with functions of other generations afterwards.
pub replace_and_cancel_previous-IsTracked :
    {cm : CancelMap} {fs : List CleanupFunc} (name : String) (cancel : ℕ)
    → Reachable cm fs
    → suc (length fs) < 2 ^ 63
    → (g : CleanupFunc) → Returned g fs
    → {cm' : CancelMap}
    → Others
        (replace_and_cancel_previous name cancel cm).1
        (cleanup g (replace_and_cancel_previous name cancel cm).0)
        cm'
    → IsTracked (replace_and_cancel_previous name cancel cm).1 cm'
replace_and_cancel_previous-IsTracked {cm} {fs} name cancel run h g r others =
    let p = Reachable-Generations run h in
    let (n, e, le) = p.used g r in
    Others-IsTracked others (
      clean_other-IsTracked (replace_and_cancel_previous name cancel cm).1 g _
        (replace-IsTracked name cancel cm) (older name cancel cm g n (length fs) p.next e le))

-- The call of its own cleanup function untracks a goroutine and cancels it.
pub cleanup-IsTracked :
    (f : CleanupFunc) (cm : CancelMap)
    → IsTracked f cm
    → (lookup f.name (cleanup f cm).cancel_map ≡ none)
      × (lookup f.name (cleanup f cm).cancel_generation ≡ none)
      × ((cleanup f cm).canceled ≡ f.cancel ∷ cm.canceled)
unfolding cleanup generation_of
cleanup-IsTracked f cm t = (
  ground (arith, t.in_generations, lookup-delete f.name f.name cm.cancel_map, eq_iff f.name f.name),
  ground (
    arith,
    t.in_generations,
    lookup-delete f.name f.name cm.cancel_generation,
    eq_iff f.name f.name,
  ),
  ground arith,
)
