-- ===== src/Philosophers/Count.antt =====
-- Sums over the five philosophers.
use cs.Common.{
  ℕ, zero, suc, refl, ◌+◌, ◌≤◌, ◌<◌, ◌≡◌, inl, inr, arith, ltb, ◌==◌, Bool-cases, update,
}
use cs.Philosophers.{Pc}

-- The sum of `f` over the first `n` philosophers.
unfoldable pub count : ℕ → (Pc → ℕ) → (ℕ → Pc) → ℕ
count zero f pc = 0
count (suc n) f pc = f (pc n) + count n f pc

count-beyond :
    (n : ℕ) (f : Pc → ℕ) (pc : ℕ → Pc) (i : ℕ) (p : Pc)
    → n ≤ i
    → count n f (update pc i p) ≡ count n f pc
unfolding count
count-beyond zero f pc i p le = refl
count-beyond (suc n) f pc i p le = ground (arith, count-beyond n f pc i p (omega arith))

-- When one philosopher moves, its summand is exchanged.
pub count-update :
    (n : ℕ) (f : Pc → ℕ) (pc : ℕ → Pc) (i : ℕ) (p : Pc)
    → i < n
    → count n f (update pc i p) + f (pc i) ≡ count n f pc + f p
unfolding count
count-update zero f pc i p lt = absurd (omega arith)
count-update (suc n) f pc i p lt = elim (Bool-cases (n == i)) [
  | inl here ↦ ground (arith, count-beyond n f pc i p)
  | inr other ↦ ground (arith, count-update n f pc i p)
]

-- A positive sum has a positive summand.
pub count-some :
    (n : ℕ) (f : Pc → ℕ) (pc : ℕ → Pc) → 0 < count n f pc → (j : ℕ) × (j < n) × (0 < f (pc j))
unfolding count
count-some zero f pc h = absurd (omega arith)
count-some (suc n) f pc h = elim (Bool-cases (ltb 0 (f (pc n)))) [
  | inl some_here ↦ (n, omega arith, ground arith)
  | inr none_here ↦
      let (j, lt, pos) = count-some n f pc (ground arith) in (j, omega (arith, lt), pos)
]
