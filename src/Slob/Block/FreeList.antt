-- ===== src/Slob/Block/FreeList.antt =====
-- Blocks written by `set_slob` and read by `slob_units` and `slob_next`; the free list of a page.
use cs.Common.{
  ℕ, ◌+◌, ◌*◌, ◌≤◌, ◌<◌, ◌≡◌, ◌⊎◌, inl, inr, true, false, List, [], ◌∷◌, arith, All, All-mono,
  length,
}
use cs.Slob.Block.{Mem, set_slob, slob_units, slob_next, slob_last}

-- At `a` in page `k` stands a free block of `n` units, whose link leads to `nx` behind it.
pub record IsBlock (m : Mem) (k a n nx : ℕ) : Type 0 where
  pub low : k * 2048 ≤ a
  pub pos : 0 < n
  pub room : a + n ≤ nx
  pub high : nx ≤ k * 2048 + 2048
  pub units : slob_units m a ≡ n
  pub link : slob_next m a ≡ nx
  pub single : n ≡ 1 → 32768 ≤ m a

-- Round trip: the block that `set_slob` writes has the size and the link that it was given.
pub set_slob-IsBlock :
    (m : Mem) (k a n nx : ℕ)
    → k * 2048 ≤ a
    → 0 < n
    → a + n ≤ nx
    → nx ≤ k * 2048 + 2048
    → IsBlock (set_slob m a n nx) k a n nx
unfolding set_slob slob_units slob_next
set_slob-IsBlock m k a n nx low pos room high = record {
  low = low;
  pos = pos;
  room = room;
  high = high;
  units = ground arith;
  link = ground arith;
  single = λ e. ground arith;
}

-- A unit outside the block of `n` units at `a`.
abbrev pub Beside : ℕ → ℕ → ℕ → Type 0
Beside y a n = (y < a) ⊎ (a + n ≤ y)

-- `set_slob` writes only inside the block.
pub set_slob-frame :
    (m : Mem) (a n nx y : ℕ) → 0 < n → n < 32768 → Beside y a n → set_slob m a n nx y ≡ m y
unfolding set_slob
set_slob-frame m a n nx y pos small (inl below) = ground arith
set_slob-frame m a n nx y pos small (inr above) = ground arith

-- A block survives any change that spares its units.
pub IsBlock-frame :
    (m m' : Mem) {k a n nx : ℕ}
    → IsBlock m k a n nx
    → ((y : ℕ) → a ≤ y → y < a + n → m' y ≡ m y)
    → IsBlock m' k a n nx
unfolding slob_units slob_next
IsBlock-frame m m' {a} {n} b same = record {
  low = b.low;
  pos = b.pos;
  room = b.room;
  high = b.high;
  units = ground (arith, b.units, same a);
  link = ground (arith, b.units, b.link, b.single, same a, same (a + 1));
  single = λ e. ground (arith, b.single e, same a);
}

-- A free block: its address and its units.
abbrev pub Block : Type 0
Block = ℕ × ℕ

-- Where the free list `bs` of page `k` starts; the end of the page if it is empty.
abbrev pub start : ℕ → List Block → ℕ
start k [] = k * 2048 + 2048
start k ((a, n) ∷ bs) = a

-- The memory holds the free list `bs` of page `k`: ascending, disjoint blocks, each linked to the
-- next one, the last one to the end of the page.
abbrev pub FreeList : Mem → ℕ → List Block → Type 0
FreeList m k [] = Unit
FreeList m k ((a, n) ∷ bs) = IsBlock m k a n (start k bs) × FreeList m k bs

-- A unit outside all blocks.
abbrev pub Outside : ℕ → List Block → Type 0
Outside y = All (λ b. Beside y b.0 b.1)

-- All blocks lie above what the first one lies above.
pub FreeList-above :
    (m : Mem) (k lo : ℕ) (bs : List Block)
    → lo ≤ start k bs
    → FreeList m k bs
    → All (λ b. lo ≤ b.0) bs
FreeList-above m k lo [] le f = tt
FreeList-above m k lo ((a, n) ∷ bs) le f =
    (le, FreeList-above m k lo bs (omega (arith, f.0.room)) f.1)

pub start-le-end :
    (m : Mem) (k : ℕ) (bs : List Block) → FreeList m k bs → start k bs ≤ k * 2048 + 2048
start-le-end m k [] f = omega arith
start-le-end m k ((a, n) ∷ bs) f = omega (arith, f.0.room, f.0.high)

pub FreeList-frame :
    (m m' : Mem) (k : ℕ) (bs : List Block)
    → FreeList m k bs
    → ((y : ℕ) → start k bs ≤ y → y < k * 2048 + 2048 → m' y ≡ m y)
    → FreeList m' k bs
FreeList-frame m m' k [] f same = tt
FreeList-frame m m' k ((a, n) ∷ bs) f same = (
  IsBlock-frame m m' f.0 (λ y l h. same y l (omega (arith, f.0.room, f.0.high))),
  FreeList-frame m m' k bs f.1 (λ y l h. same y (omega (arith, f.0.room)) h),
)

-- A page has no more free blocks than units.
pub FreeList-length :
    (m : Mem) (k : ℕ) (bs : List Block) → FreeList m k bs → length bs + start k bs ≤ k * 2048 + 2048
FreeList-length m k [] f = omega arith
FreeList-length m k ((a, n) ∷ bs) f = omega (arith, FreeList-length m k bs f.1, f.0.room, f.0.pos)

-- A link to the end of the page marks the last block, and one into the page does not.
pub slob_last-end :
    {m : Mem} {k a n nx : ℕ} → IsBlock m k a n nx → nx ≡ k * 2048 + 2048 → slob_last m a ≡ true
unfolding slob_last
slob_last-end b e = ground (arith, b.link)

pub slob_last-inner :
    {m : Mem} {k a n nx : ℕ} → IsBlock m k a n nx → nx < k * 2048 + 2048 → slob_last m a ≡ false
unfolding slob_last
slob_last-inner b h = ground (arith, b.link, b.low, b.pos, b.room)

pub Outside-below :
    (m : Mem) (k y : ℕ) (bs : List Block) → FreeList m k bs → y < start k bs → Outside y bs
Outside-below m k y bs f lt =
    All-mono _ _ (λ b le. inl (omega arith)) bs (FreeList-above m k (start k bs) bs (omega arith) f)

-- The free units of a list.
abbrev pub total : List Block → ℕ
total [] = 0
total ((a, n) ∷ bs) = n + total bs
