-- ===== src/Controllers/Cancel.antt =====
-- internal/controllers/cancel_map.go: the goroutines that the reconciler watches deployments with. A
-- cancel function is a number; the lock makes every operation one step. `canceled` lists the calls of
-- cancel functions, the last one first.
pub mod Tracking
use ketch.Base.{
  ℕ, String, Bool, true, false, List, [], ◌∷◌, Option, none, some, ℤ, pos, add_int, beq_ℤ, Dict,
  lookup, insert, delete, not, if◌then◌else◌,
}

pub record CancelMap : Type 0 where
  pub generation : ℤ
  pub cancel_map : Dict ℕ
  pub cancel_generation : Dict ℤ
  pub canceled : List ℕ

-- A `cleanupFunc`: what the closure keeps.
pub record CleanupFunc : Type 0 where
  pub name : String
  pub cancel : ℕ
  pub generation : ℤ

abbrev pub new_cancel_map : CancelMap
new_cancel_map = record {
  generation = pos 1;
  cancel_map = [];
  cancel_generation = [];
  canceled = [];
}

unfoldable pub replace_and_cancel_previous : String → ℕ → CancelMap → CancelMap × CleanupFunc
unfolding lookup insert
replace_and_cancel_previous name cancel cm = (
  record {
    generation = add_int cm.generation (pos 1);
    cancel_map = insert name cancel cm.cancel_map;
    cancel_generation = insert name cm.generation cm.cancel_generation;
    canceled = elim (lookup name cm.cancel_map) [
      | none ↦ cm.canceled
      | some previous ↦ previous ∷ cm.canceled
    ];
  },
  record { name = name; cancel = cancel; generation = cm.generation },
)

-- A missing generation is 0.
unfoldable pub generation_of : String → Dict ℤ → ℤ
unfolding lookup
generation_of name generations = elim (lookup name generations) [ none ↦ pos 0 | some g ↦ g ]

-- The call of a `cleanupFunc`.
unfoldable pub cleanup : CleanupFunc → CancelMap → CancelMap
unfolding generation_of delete
cleanup f cm =
    if not (beq_ℤ (generation_of f.name cm.cancel_generation) f.generation)
    then record cm { canceled = f.cancel ∷ cm.canceled }
    else record cm {
      cancel_map = delete f.name cm.cancel_map;
      cancel_generation = delete f.name cm.cancel_generation;
      canceled = f.cancel ∷ cm.canceled;
    }
