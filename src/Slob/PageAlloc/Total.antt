-- ===== src/Slob/PageAlloc/Total.antt =====
-- First fit and the total of the free list.
use cs.Common.{
  ℕ, ◌+◌, ◌-◌, ◌≤◌, ◌≡◌, inl, inr, some, List, [], ◌∷◌, arith, leb, Bool-cases, Option-cases,
}
use cs.Slob.Block.FreeList.{Block, total}
use cs.Slob.PageAlloc.{align_gap}
use cs.Slob.PageAlloc.Fit.{shrink, carve, fit}

total-shrink :
    (units a n : ℕ) (bs : List Block)
    → units ≤ n
    → total (shrink units a n bs) + units ≡ n + total bs
unfolding shrink
total-shrink units a n bs le = ground arith

total-carve :
    (units d a n : ℕ) (bs : List Block)
    → units + d ≤ n
    → total (carve units d a n bs) + units ≡ n + total bs
unfolding carve
total-carve units d a n bs le =
    ground (arith, total-shrink units a n bs, total-shrink units (a + d) (n - d) bs)

pub total-fit :
    (units align : ℕ) (bs : List Block) {x : ℕ} {bs' : List Block}
    → fit units align bs ≡ some (x, bs')
    → total bs' + units ≡ total bs
unfolding fit
total-fit units align [] e = cc
total-fit units align ((a, n) ∷ bs) e = elim (Bool-cases (leb (units + align_gap a align) n)) [
  | inl h ↦ ground (arith, total-carve units (align_gap a align) a n bs)
  | inr h ↦ elim (Option-cases (fit units align bs)) [
    | inl nothing ↦ absurd (ground arith)
    | inr ((y, ys), f) ↦ ground (arith, total-fit units align bs f)
  ]
]
