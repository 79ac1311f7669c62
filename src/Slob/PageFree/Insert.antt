-- ===== src/Slob/PageFree/Insert.antt =====
-- Insertion of a freed block into an abstract free list, with its neighbours joined: the
-- specification of freeing into a page.
use cs.Common.{◌+◌, List, [], ◌∷◌, ltb, ◌==◌, if◌then◌else◌}
use cs.Slob.Block.FreeList.{Block}

-- The block in front of `bs`, joined to the first of them if that one begins where it ends.
unfoldable pub join : Block → List Block → List Block
join b [] = b ∷ []
join (b, u) ((a, n) ∷ bs) = if b + u == a then (b, u + n) ∷ bs else (b, u) ∷ (a, n) ∷ bs

-- Behind the block `p`, and in front of the first block of `bs` that is not below the new one.
unfoldable pub insert_after : (p b : Block) → List Block → List Block
unfolding join
insert_after p b [] = join p (join b [])
insert_after p b (q ∷ bs) =
    if ltb q.0 b.0 then p ∷ insert_after q b bs else join p (join b (q ∷ bs))

unfoldable pub insert_free : Block → List Block → List Block
unfolding insert_after
insert_free b [] = b ∷ []
insert_free b (q ∷ bs) = if ltb b.0 q.0 then join b (q ∷ bs) else insert_after q b bs
