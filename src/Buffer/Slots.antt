-- ===== src/Buffer/Slots.antt =====
-- Full and empty slots of the buffer, concur/concurrent1/concurrent1.c.
use cs.Common.{
  ℕ, zero, suc, refl, ◌+◌, ◌≤◌, ◌<◌, ◌≡◌, arith, ◌==◌, if◌then◌else◌, Bool-cases, inl, inr, update,
}

-- The number of full slots among the first `n`.
unfoldable pub full : ℕ → (ℕ → ℕ) → ℕ
full zero b = 0
full (suc n) b = (if b n == 0 then 0 else 1) + full n b

full-beyond : (n : ℕ) (b : ℕ → ℕ) (i v : ℕ) → n ≤ i → full n (update b i v) ≡ full n b
unfolding full
full-beyond zero b i v le = refl
full-beyond (suc n) b i v le = ground (arith, full-beyond n b i v (omega arith))

pub full-fill :
    (n : ℕ) (b : ℕ → ℕ) (i v : ℕ) → i < n → b i ≡ 0 → 0 < v → full n (update b i v) ≡ full n b + 1
unfolding full
full-fill zero b i v lt e pos = absurd (omega arith)
full-fill (suc n) b i v lt e pos = elim (Bool-cases (n == i)) [
  | inl here ↦ ground (arith, full-beyond n b i v)
  | inr other ↦ ground (arith, full-fill n b i v)
]

pub full-empty :
    (n : ℕ) (b : ℕ → ℕ) (i : ℕ) → i < n → 0 < b i → full n (update b i 0) + 1 ≡ full n b
unfolding full
full-empty zero b i lt pos = absurd (omega arith)
full-empty (suc n) b i lt pos = elim (Bool-cases (n == i)) [
  | inl here ↦ ground (arith, full-beyond n b i 0)
  | inr other ↦ ground (arith, full-empty n b i)
]

pub full-le : (n : ℕ) (b : ℕ → ℕ) → full n b ≤ n
unfolding full
full-le zero b = omega arith
full-le (suc n) b = ground (arith, full-le n b)

pub some_empty : (n : ℕ) (b : ℕ → ℕ) → full n b < n → (j : ℕ) × (j < n) × (b j ≡ 0)
unfolding full
some_empty zero b h = absurd (omega arith)
some_empty (suc n) b h = elim (Bool-cases (b n == 0)) [
  | inl here ↦ (n, omega arith, ground arith)
  | inr other ↦ let (j, lt, e) = some_empty n b (ground arith) in (j, omega (arith, lt), e)
]

pub some_full : (n : ℕ) (b : ℕ → ℕ) → 0 < full n b → (j : ℕ) × (j < n) × (0 < b j)
unfolding full
some_full zero b h = absurd (omega arith)
some_full (suc n) b h = elim (Bool-cases (b n == 0)) [
  | inl here ↦ let (j, lt, e) = some_full n b (ground arith) in (j, omega (arith, lt), e)
  | inr other ↦ (n, omega arith, ground arith)
]
