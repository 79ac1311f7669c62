-- ===== src/Slob/PageAlloc/Fit.antt =====
-- First fit on an abstract free list: the specification of the search of a page.
use cs.Common.{ℕ, ◌+◌, ◌-◌, Option, none, some, List, [], ◌∷◌, leb, ◌==◌, if◌then◌else◌}
use cs.Slob.Block.FreeList.{Block}
use cs.Slob.PageAlloc.{align_gap}

-- What is left of the free list when `units` units are taken from the start of its first block.
unfoldable pub shrink : (units a n : ℕ) → List Block → List Block
shrink units a n bs = if n == units then bs else (a + units, n - units) ∷ bs

-- What is left when they are taken `d` units behind the start.
unfoldable pub carve : (units d a n : ℕ) → List Block → List Block
unfolding shrink
carve units d a n bs =
    if d == 0 then shrink units a n bs else (a, d) ∷ shrink units (a + d) (n - d) bs

-- A block without room stays in front of what is left.
abbrev pub keep : Block → Option (ℕ × List Block) → Option (ℕ × List Block)
keep b none = none
keep b (some (x, bs)) = some (x, b ∷ bs)

-- The first block with room behind its aligned address: the address, and the blocks left.
unfoldable pub fit : (units align : ℕ) → List Block → Option (ℕ × List Block)
unfolding carve
fit units align [] = none
fit units align ((a, n) ∷ bs) =
    let d = align_gap a align in
    if leb (units + d) n
    then some (a + d, carve units d a n bs)
    else keep (a, n) (fit units align bs)
