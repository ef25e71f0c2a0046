-- ===== src/Prelude/Ids.antt =====
-- Maps from numbers, as association lists.
use Prim.Native.Nat.{ℕ}
use mathlib.Core.Path.{◌≡◌, refl}
use mathlib.Core.Option.{Option, none, some}
use mathlib.Core.List.{List, [], ◌∷◌}
use native.Mathlib.Omega.{arith}
use gaurun.Prelude.Tests.{◌==◌, if◌then◌else◌}

module _ {ℓ} {V : Type ℓ} where
  -- `m[id]`, none if the key is missing
  unfoldable pub lookup_id : ℕ → List (ℕ × V) → Option V
  lookup_id id [] = none
  lookup_id id ((key, value) ∷ m) =
      let further = lookup_id id m in if id == key then some value else further

  -- `m[id] = value`
  unfoldable pub insert_id : ℕ → V → List (ℕ × V) → List (ℕ × V)
  insert_id id value [] = (id, value) ∷ []
  insert_id id value ((key, old) ∷ m) =
      let further = insert_id id value m in
      if id == key then (key, value) ∷ m else (key, old) ∷ further

  pub lookup_id-insert_id :
      (asked id : ℕ) (value : V) (m : List (ℕ × V))
      → lookup_id asked (insert_id id value m)
        ≡ (if asked == id then some value else lookup_id asked m)
  unfolding lookup_id insert_id
  lookup_id-insert_id asked id value [] = refl
  lookup_id-insert_id asked id value ((key, old) ∷ m) =
      ground (arith, lookup_id-insert_id asked id value m)
