-- ===== src/Slob/Allocator/Free/Insert.antt =====
-- The total of a free list and the insertion of a freed block.
use cs.Common.{◌+◌, ◌≡◌, refl, inl, inr, List, [], ◌∷◌, arith, ltb, ◌==◌, Bool-cases}
use cs.Slob.Block.FreeList.{Block, total}
use cs.Slob.PageFree.Insert.{join, insert_after, insert_free}

total-join : (b : Block) (bs : List Block) → total (join b bs) ≡ b.1 + total bs
unfolding join
total-join (b, u) [] = refl
total-join (b, u) ((a, n) ∷ bs) = elim (Bool-cases (b + u == a)) [
  | inl touch ↦ rw touch (omega arith)
  | inr apart ↦ rw apart refl
]

total-insert_after :
    (p b : Block) (bs : List Block) → total (insert_after p b bs) ≡ p.1 + (b.1 + total bs)
unfolding insert_after
total-insert_after p b [] = omega (arith, total-join p (join b []), total-join b [])
total-insert_after p b (q ∷ bs) = elim (Bool-cases (ltb q.0 b.0)) [
  | inl below ↦ rw below (omega (arith, total-insert_after q b bs))
  | inr above ↦ rw above (omega (arith, total-join p (join b (q ∷ bs)), total-join b (q ∷ bs)))
]

pub total-insert_free : (b : Block) (bs : List Block) → total (insert_free b bs) ≡ b.1 + total bs
unfolding insert_free
total-insert_free b [] = refl
total-insert_free b (q ∷ bs) = elim (Bool-cases (ltb b.0 q.0)) [
  | inl before ↦ rw before (total-join b (q ∷ bs))
  | inr behind ↦ rw behind (omega (arith, total-insert_after q b bs))
]
