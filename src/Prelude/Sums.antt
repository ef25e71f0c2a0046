-- ===== src/Prelude/Sums.antt =====
-- Families indexed by numbers: a change at one index, and the sum of a weight over the first `n`.
use Prim.Native.Nat.{ℕ, zero, suc, ◌+◌, ◌*◌, ◌≤◌, ◌<◌}
use mathlib.Core.Path.{◌≡◌, refl}
use native.Mathlib.Decide.{dec_lt}
use native.Mathlib.Omega.{arith}
use gaurun.Prelude.Tests.{◌==◌, if◌then◌else◌}

abbrev pub set_at {ℓ} : {A : Type ℓ} → (ℕ → A) → ℕ → A → ℕ → A
set_at family i a j = if i == j then a else family j

module _ {ℓ} {A : Type ℓ} (weight : A → ℕ) where
  pub sum_of : (ℕ → A) → ℕ → ℕ
  sum_of family zero = 0
  sum_of family (suc n) = weight (family n) + sum_of family n

  pub sum_of-suc :
      (family : ℕ → A) (n : ℕ) → sum_of family (suc n) ≡ weight (family n) + sum_of family n
  unfolding sum_of
  sum_of-suc family n = refl

  -- A change at an index that is not summed.
  pub sum_of-set_above :
      (family : ℕ → A) (i : ℕ) (a : A) (n : ℕ)
      → n ≤ i
      → sum_of (set_at family i a) n ≡ sum_of family n
  unfolding sum_of
  sum_of-set_above family i a zero above = refl
  sum_of-set_above family i a (suc n) above = ground (arith, sum_of-set_above family i a n)

  -- A first value for the next index adds its weight.
  pub sum_of-set_new :
      (family : ℕ → A) (n : ℕ) (a : A)
      → sum_of (set_at family n a) (suc n) ≡ weight a + sum_of family n
  unfolding sum_of
  sum_of-set_new family n a = ground (arith, sum_of-set_above family n a n)

  -- A change at an index that is summed exchanges one weight for another.
  pub sum_of-set_at :
      (family : ℕ → A) (i : ℕ) (a : A) (n : ℕ)
      → i < n
      → weight (family i) + sum_of (set_at family i a) n ≡ weight a + sum_of family n
  unfolding sum_of
  sum_of-set_at family i a zero below = absurd (omega arith)
  sum_of-set_at family i a (suc n) below = elim (dec_lt i n) [
    | yes earlier ↦ ground (arith, sum_of-set_at family i a n earlier)
    | no last ↦ ground (arith, sum_of-set_above family i a n)
  ]

  pub sum_of-eq-zero :
      (family : ℕ → A) (n : ℕ) → ((i : ℕ) → weight (family i) ≡ 0) → sum_of family n ≡ 0
  unfolding sum_of
  sum_of-eq-zero family zero none_counts = refl
  sum_of-eq-zero family (suc n) none_counts =
      omega (arith, none_counts n, sum_of-eq-zero family n none_counts)

  pub sum_of-le :
      (family : ℕ → A) (most n : ℕ)
      → ((i : ℕ) → weight (family i) ≤ most)
      → sum_of family n ≤ n * most
  unfolding sum_of
  sum_of-le family most zero small = omega arith
  sum_of-le family most (suc n) small = grind (arith, small n, sum_of-le family most n small)

  -- A sum of zero has only zeros.
  pub sum_of-all-zero :
      (family : ℕ → A) (n i : ℕ) → sum_of family n ≡ 0 → i < n → weight (family i) ≡ 0
  unfolding sum_of
  sum_of-all-zero family zero i e below = absurd (omega arith)
  sum_of-all-zero family (suc n) i e below = elim (dec_lt i n) [
    | yes earlier ↦ sum_of-all-zero family n i (omega (arith, e)) earlier
    | no last ↦ ground (arith, e, below, last)
  ]
