-- ===== src/Common/Threads.antt =====
-- Sums over the first `n` of a family of threads.
use Prim.Native.Nat.{ℕ, zero, suc, ◌+◌, ◌≤◌, ◌<◌}
use mathlib.Core.Path.{◌≡◌, refl, subst}
use mathlib.Core.Logic.{inl, inr}
use mathlib.Core.Bool.{false}
use native.Mathlib.Omega.{arith}
use cs.Common.Tests.{◌==◌, Bool-cases}
use cs.Common.Memory.{update}

module _ {A : Type 0} (w : A → ℕ) where
  -- The sum of `w` over the states of the first `n` threads.
  unfoldable pub sum : ℕ → (ℕ → A) → ℕ
  sum zero pc = 0
  sum (suc n) pc = w (pc n) + sum n pc

  pub sum-beyond : (n : ℕ) (pc : ℕ → A) (i : ℕ) (p : A) → n ≤ i → sum n (update pc i p) ≡ sum n pc
  unfolding sum
  sum-beyond zero pc i p le = refl
  sum-beyond (suc n) pc i p le = ground (arith, sum-beyond n pc i p (omega arith))

  pub sum-update :
      (n : ℕ) (pc : ℕ → A) (i : ℕ) (p : A)
      → i < n
      → sum n (update pc i p) + w (pc i) ≡ sum n pc + w p
  unfolding sum
  sum-update zero pc i p lt = absurd (omega arith)
  sum-update (suc n) pc i p lt = elim (Bool-cases (n == i)) [
    | inl here ↦ ground (arith, sum-beyond n pc i p)
    | inr other ↦ ground (arith, sum-update n pc i p)
  ]

  pub sum-const : (n : ℕ) (p : A) → w p ≡ 0 → sum n (λ _. p) ≡ 0
  unfolding sum
  sum-const zero p e = refl
  sum-const (suc n) p e = omega (arith, e, sum-const n p e)

  -- A sum bounds each of its terms.
  pub le-sum : (n : ℕ) (pc : ℕ → A) (i : ℕ) → i < n → w (pc i) ≤ sum n pc
  unfolding sum
  le-sum zero pc i lt = absurd (omega arith)
  le-sum (suc n) pc i lt = elim (Bool-cases (n == i)) [
    | inl here ↦ ground arith
    | inr other ↦ ground (arith, le-sum n pc i)
  ]

  -- A positive sum has a positive term, and a sum that is zero has none.
  pub sum-positive : (n : ℕ) (pc : ℕ → A) → 0 < sum n pc → (i : ℕ) × (i < n) × (0 < w (pc i))
  unfolding sum
  sum-positive zero pc h = absurd (omega arith)
  sum-positive (suc n) pc h = elim (Bool-cases (w (pc n) == 0)) [
    | inl none_here ↦
        let (i, lt, pos) = sum-positive n pc (ground arith) in (i, omega (arith, lt), pos)
    | inr here ↦ (n, omega arith, ground arith)
  ]

  -- Two threads have no more than all.
  pub le-sum-two :
      (n : ℕ) (pc : ℕ → A) (i j : ℕ)
      → i < n
      → j < n
      → (i == j) ≡ false
      → w (pc i) + w (pc j) ≤ sum n pc
  unfolding sum
  le-sum-two zero pc i j lt lt' ne = absurd (omega arith)
  le-sum-two (suc n) pc i j lt lt' ne = elim (Bool-cases (n == i)) [
    | inl first ↦ ground (arith, le-sum n pc j)
    | inr other ↦ elim (Bool-cases (n == j)) [
      | inl second ↦ ground (arith, le-sum n pc i)
      | inr neither ↦ ground (arith, le-sum-two n pc i j)
    ]
  ]

  pub sum-zero : (n : ℕ) (pc : ℕ → A) → ((i : ℕ) → i < n → w (pc i) ≡ 0) → sum n pc ≡ 0
  unfolding sum
  sum-zero zero pc h = refl
  sum-zero (suc n) pc h =
      omega (arith, h n (omega arith), sum-zero n pc (λ i lt. h i (omega arith)))

-- What holds of the state of thread `i` after a change, and of the states of the others, holds of
-- all.
pub of_update {ℓ} :
    {A : Type 0} (P : ℕ → A → Type ℓ) (pc : ℕ → A) (i : ℕ) (p : A) (n : ℕ)
    → P i p
    → ((k : ℕ) → k < n → (k == i) ≡ false → P k (pc k))
    → (k : ℕ) → k < n
    → P k (update pc i p k)
of_update P pc i p n here others k lt = elim (Bool-cases (k == i)) [
  | inl e ↦ let at : i ≡ k = ground arith in rw e (subst (λ j. P j p) at here)
  | inr ne ↦ rw ne (others k lt ne)
]
