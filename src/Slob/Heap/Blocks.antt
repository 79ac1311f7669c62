-- ===== src/Slob/Heap/Blocks.antt =====
-- Blocks that share no unit with the free blocks, through first fit and insertion.
use cs.Common.{
  ℕ, ◌+◌, ◌-◌, ◌*◌, ◌≤◌, ◌<◌, ◌≡◌, ◌⊎◌, inl, inr, some, List, [], ◌∷◌, arith, All, All-mono, leb,
  ltb, ◌==◌, Bool-cases, Option-cases,
}
use cs.Slob.Block.{Mem}
use cs.Slob.Block.FreeList.{Block, start, FreeList, FreeList-above}
use cs.Slob.PageAlloc.{align_gap}
use cs.Slob.PageAlloc.Fit.{shrink, carve, fit}
use cs.Slob.PageFree.Insert.{join, insert_after, insert_free}
use cs.Slob.PageFree.Refine.{Disjoint}
use cs.Slob.Heap.{Apart}

-- What a block keeps away from stays away from what is left behind a first fit, and from the block
-- that was taken.
Disjoint-shrink :
    (b u units a n : ℕ) (bs : List Block)
    → 0 < u
    → units ≤ n
    → Apart b u a n
    → Disjoint b u bs
    → Disjoint b u (shrink units a n bs)
unfolding shrink
Disjoint-shrink b u units a n bs pos le apart rest = elim (Bool-cases (n == units)) [
  | inl all ↦ rw all rest
  | inr some_left ↦ rw some_left (ground arith, rest)
]

Disjoint-carve :
    (b u units d a n : ℕ) (bs : List Block)
    → 0 < u
    → units + d ≤ n
    → Apart b u a n
    → Disjoint b u bs
    → Disjoint b u (carve units d a n bs)
unfolding carve
Disjoint-carve b u units d a n bs pos le apart rest = elim (Bool-cases (d == 0)) [
  | inl aligned ↦ rw aligned (Disjoint-shrink b u units a n bs pos (omega arith) apart rest)
  | inr gap ↦ rw gap (
    ground arith,
    Disjoint-shrink b u units (a + d) (n - d) bs pos (omega arith) (ground arith) rest,
  )
]

-- The two ways in which a first fit on a list with a first block succeeds.
fit-cases :
    (units align a n : ℕ) (bs : List Block) (x : ℕ) (bs' : List Block)
    → fit units align ((a, n) ∷ bs) ≡ some (x, bs')
    → ((units + align_gap a align ≤ n)
        × (x ≡ a + align_gap a align)
        × (bs' ≡ carve units (align_gap a align) a n bs))
      ⊎ ((ys : List Block) × (fit units align bs ≡ some (x, ys)) × (bs' ≡ (a, n) ∷ ys))
unfolding fit
fit-cases units align a n bs x bs' e = elim (Bool-cases (leb (units + align_gap a align) n)) [
  | inl room ↦ inl (ground arith, ground arith, ground arith)
  | inr small ↦ elim (Option-cases (fit units align bs)) [
    | inl nothing ↦ absurd (ground arith)
    | inr ((y, ys), f) ↦ let same : x ≡ y = ground arith in inr (ys, rw same f, ground arith)
  ]
]

pub Disjoint-fit :
    (b u units align : ℕ) (bs : List Block) (x : ℕ) (bs' : List Block)
    → 0 < u
    → fit units align bs ≡ some (x, bs')
    → Disjoint b u bs
    → Disjoint b u bs' × Apart b u x units
unfolding fit
Disjoint-fit b u units align [] x bs' pos e apart = absurd (cc e)
Disjoint-fit b u units align ((a, n) ∷ bs) x bs' pos e (first, rest) =
    elim (fit-cases units align a n bs x bs' e) [
      | inl (room, at, left) ↦ (
        rw left (Disjoint-carve b u units (align_gap a align) a n bs pos room first rest),
        rw at (ground (arith, room, first)),
      )
      | inr (ys, e', left) ↦
          let (later, away) = Disjoint-fit b u units align bs x ys pos e' rest in
          (rw left (first, later), away)
    ]

shrink-Disjoint :
    (x units a n : ℕ) (bs : List Block)
    → x ≡ a
    → units ≤ n
    → All (λ b. a + n ≤ b.0) bs
    → Disjoint x units (shrink units a n bs)
unfolding shrink
shrink-Disjoint x units a n bs at le above =
    let rest : Disjoint x units bs = All-mono _ _ (λ b h. inl (omega arith)) bs above in
    elim (Bool-cases (n == units)) [
      | inl all ↦ rw all rest
      | inr some_left ↦ rw some_left (inl (omega arith), rest)
    ]

carve-Disjoint :
    (x units d a n : ℕ) (bs : List Block)
    → x ≡ a + d
    → units + d ≤ n
    → All (λ b. a + n ≤ b.0) bs
    → Disjoint x units (carve units d a n bs)
unfolding carve
carve-Disjoint x units d a n bs at le above = elim (Bool-cases (d == 0)) [
  | inl aligned ↦ rw aligned (shrink-Disjoint x units a n bs (ground arith) (omega arith) above)
  | inr gap ↦ rw gap (
    inr (omega arith),
    shrink-Disjoint x units (a + d) (n - d) bs at (omega arith)
        (All-mono _ _ (λ b h. omega arith) bs above),
  )
]

-- The block of a first fit lies in the page, and keeps away from what is left.
pub fit-Disjoint :
    (m : Mem) (k units align : ℕ) (bs : List Block) (x : ℕ) (bs' : List Block)
    → 0 < units
    → FreeList m k bs
    → fit units align bs ≡ some (x, bs')
    → (start k bs ≤ x) × (x + units ≤ k * 2048 + 2048) × Disjoint x units bs'
unfolding fit
fit-Disjoint m k units align [] x bs' pos f e = absurd (cc e)
fit-Disjoint m k units align ((a, n) ∷ bs) x bs' pos f e =
    elim (fit-cases units align a n bs x bs' e) [
      | inl (room, at, left) ↦ (
        omega (arith, at),
        omega (arith, at, room, f.0.room, f.0.high),
        rw left (
            carve-Disjoint x units (align_gap a align) a n bs at room
              (FreeList-above m k (a + n) bs f.0.room f.1)),
      )
      | inr (ys, e', left) ↦
          let (low, high, away) = fit-Disjoint m k units align bs x ys pos f.1 e' in
          (omega (arith, f.0.room, low), high, rw left (inr (omega (arith, f.0.room, low)), away))
    ]

Disjoint-join :
    (c v b u : ℕ) (bs : List Block)
    → 0 < v
    → Apart c v b u
    → Disjoint c v bs
    → Disjoint c v (join (b, u) bs)
unfolding join
Disjoint-join c v b u [] pos first rest = (first, tt)
Disjoint-join c v b u ((a, n) ∷ bs) pos first (second, rest) = elim (Bool-cases (b + u == a)) [
  | inl touch ↦ rw touch (ground (arith, first, second), rest)
  | inr gap ↦ rw gap (first, (second, rest))
]

Disjoint-insert_after :
    (c v a n b u : ℕ) (bs : List Block)
    → 0 < v
    → Apart c v a n
    → Apart c v b u
    → Disjoint c v bs
    → Disjoint c v (insert_after (a, n) (b, u) bs)
unfolding insert_after
Disjoint-insert_after c v a n b u [] pos front new rest =
    Disjoint-join c v a n (join (b, u) []) pos front (Disjoint-join c v b u [] pos new tt)
Disjoint-insert_after c v a n b u (q ∷ bs) pos front new (first, rest) =
    elim (Bool-cases (ltb q.0 b)) [
      | inl below ↦ rw below (front, Disjoint-insert_after c v q.0 q.1 b u bs pos first new rest)
      | inr above ↦ rw above (
          Disjoint-join c v a n (join (b, u) (q ∷ bs)) pos front
            (Disjoint-join c v b u (q ∷ bs) pos new (first, rest)))
    ]

-- What keeps away from the free blocks and from a freed block keeps away from the new list.
pub Disjoint-insert_free :
    (c v b u : ℕ) (bs : List Block)
    → 0 < v
    → Apart c v b u
    → Disjoint c v bs
    → Disjoint c v (insert_free (b, u) bs)
unfolding insert_free
Disjoint-insert_free c v b u [] pos new rest = (new, tt)
Disjoint-insert_free c v b u (q ∷ bs) pos new (first, rest) = elim (Bool-cases (ltb b q.0)) [
  | inl before ↦ rw before (Disjoint-join c v b u (q ∷ bs) pos new (first, rest))
  | inr behind ↦ rw behind (Disjoint-insert_after c v q.0 q.1 b u bs pos first new rest)
]
