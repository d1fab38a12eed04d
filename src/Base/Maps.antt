-- ===== src/Base/Maps.antt =====
-- Go's maps with string keys, as association lists. A map that the code builds holds a key once;
-- a `range` over it visits the entries in the order of the list, which stands for any order.
use Prim.Native.String.{String}
use mathlib.Core.Path.{◌≡◌, refl}
use mathlib.Core.List.{List, [], ◌∷◌}
use mathlib.Core.Option.{Option, none, some}
use native.Mathlib.Omega.{arith}
use text.Mathlib.Text.{◌==◌}
use text.Mathlib.TextEquality.{eq_iff}
use ketch.Base.Tests.{if◌then◌else◌}

abbrev pub Dict {ℓ} : Type ℓ → Type ℓ
Dict V = List (String × V)

module _ {ℓ} {V : Type ℓ} where
  -- m[k], with the second result of the comma-ok form
  unfoldable pub lookup : String → Dict V → Option V
  lookup key [] = none
  lookup key ((k, value) ∷ entries) = if k == key then some value else lookup key entries

  -- m[k] = v
  unfoldable pub insert : String → V → Dict V → Dict V
  insert key value [] = (key, value) ∷ []
  insert key value ((k, old) ∷ entries) =
      let rest = insert key value entries in
      if k == key then (key, value) ∷ entries else (k, old) ∷ rest

  -- delete(m, k)
  unfoldable pub delete : String → Dict V → Dict V
  delete k [] = []
  delete k ((j, v) ∷ m) = let rest = delete k m in if j == k then rest else (j, v) ∷ rest

  pub lookup-insert :
      (key j : String) (value : V) (m : Dict V)
      → lookup j (insert key value m) ≡ (if key == j then some value else lookup j m)
  unfolding lookup insert
  lookup-insert key j value [] = refl
  lookup-insert key j value ((k, old) ∷ entries) =
      ground (arith, lookup-insert key j value entries, eq_iff k key, eq_iff k j, eq_iff key j)

  pub lookup-delete :
      (k j : String) (m : Dict V) → lookup j (delete k m) ≡ (if k == j then none else lookup j m)
  unfolding lookup delete
  lookup-delete k j [] = ground arith
  lookup-delete k j ((i, v) ∷ m) =
      ground (arith, lookup-delete k j m, eq_iff i k, eq_iff i j, eq_iff k j)
