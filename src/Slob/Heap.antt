-- ===== src/Slob/Heap.antt =====
-- The allocator as a whole, indwriterups/project4/slob.c: the blocks that its users hold, the runs
-- of `slob_alloc`, `slob_page_alloc` and `slob_free` that give and take them back, with writes of the
-- users in between.
pub mod Blocks
pub mod Frame
pub mod Listed
pub mod Take
pub mod Fresh
pub mod Write
pub mod Give
pub mod Calls
pub mod Reach
mod Tests
use cs.Common.{
  ℕ, ◌+◌, ◌≤◌, ◌<◌, ◌≡◌, ◌⊎◌, Bool, true, false, Option, none, some, List, [], ◌∷◌, ◌++◌, All, ◌==◌,
  if◌then◌else◌,
}
use cs.Slob.Block.{Mem, slob_units_of}
use cs.Slob.Block.FreeList.{Block, Beside, total}
use cs.Slob.PageFree.Refine.{Disjoint}
use cs.Slob.Allocator.{State, ok, slob_page, is_slob_page, slob_page_free, slob_page_alloc}
use cs.Slob.Allocator.Page.{IsPage}
use cs.Slob.Allocator.Alloc.{slob_alloc}
use cs.Slob.Allocator.Free.{slob_free}
use cs.Slob.Allocator.Free.Page.{InPage}

-- Two blocks share no unit.
abbrev pub Apart : (a n b u : ℕ) → Type 0
Apart a n b u = (a + n ≤ b) ⊎ (b + u ≤ a)

-- A block in use: its address, and the size in bytes that it was asked for.
abbrev pub Held : Type 0
Held = ℕ × ℕ

-- The units of page `k` in use.
abbrev pub live_units : ℕ → List Held → ℕ
live_units k [] = 0
live_units k ((b, s) ∷ live) = (if slob_page b == k then slob_units_of s else 0) + live_units k live

-- No two blocks in use share a unit.
abbrev pub AreApart : List Held → Type 0
AreApart [] = Unit
AreApart ((b, s) ∷ live) =
    All (λ c. Apart b (slob_units_of s) c.0 (slob_units_of c.1)) live × AreApart live

-- A unit outside all blocks in use.
abbrev pub Unused : ℕ → List Held → Type 0
Unused y = All (λ c. Beside y c.0 (slob_units_of c.1))

-- A unit of a block in use.
abbrev pub Used : ℕ → List Held → Type 0
Used y [] = ⊥
Used y ((b, s) ∷ live) = ((b ≤ y) × (y < b + slob_units_of s)) ⊎ Used y live

-- A call of the allocator. Its users hold `live` before and the second list after it.
pub data Call (st : State) (live : List Held) : State → List Held → Type 0 where
  -- `slob_alloc` with a new page from the page allocator at hand
  by_alloc :
      (fuel size align sp x : ℕ) (zero_it : Bool) (st' : State)
      → 0 < size
      → 0 < sp
      → is_slob_page st sp ≡ false
      → slob_alloc fuel st size align zero_it (some sp) ≡ ok (st', some x)
      → Call st live st' ((x, size) ∷ live)
  -- `slob_page_alloc` on a partially free page
  by_page_alloc :
      (sp size align x : ℕ) (st' : State)
      → 0 < size
      → 0 < sp
      → is_slob_page st sp ≡ true
      → slob_page_free st sp ≡ true
      → slob_page_alloc st sp size align none none ≡ ok (st', some x)
      → Call st live st' ((x, size) ∷ live)
  -- `slob_free` of a block in use, with its size
  by_free :
      (xs ys : List Held) (b size : ℕ) (st' : State) (page : Option ℕ)
      → live ≡ xs ++ (b, size) ∷ ys
      → slob_free st b size ≡ ok (st', page)
      → Call st live st' (xs ++ ys)

-- The states that the allocator can get into from one without pages. Between calls, anything but
-- the units of the allocator's pages that nobody holds may be written.
pub data Reachable : State → List Held → Type 0 where
  start :
      (st : State)
      → ((k : ℕ) → is_slob_page st k ≡ false)
      → ((i : ℕ) → st.lists i ≡ [])
      → Reachable st []
  call :
      {st st' : State} {live live' : List Held}
      → Reachable st live
      → Call st live st' live'
      → Reachable st' live'
  write :
      {st : State} {live : List Held} (m : Mem)
      → Reachable st live
      → ((y : ℕ) → is_slob_page st (slob_page y) ≡ true → Unused y live → m y ≡ st.mem y)
      → Reachable (record st { mem = m }) live

-- A page is partially free if it has a free block.
abbrev pub is_partly : List Block → Bool
is_partly [] = false
is_partly (q ∷ bs) = true

-- A page of the allocator: its memory, `free` field and counter agree with its free blocks, its
-- flag says whether there is one, and each unit is free or in use.
pub record IsPart (st : State) (k : ℕ) (bs : List Block) (live : List Held) : Type 0 where
  pub page : IsPage st k bs
  pub flag : slob_page_free st k ≡ is_partly bs
  pub sum : total bs + live_units k live ≡ 2048

-- A block in use lies in a page of the allocator, beside its free blocks.
abbrev pub IsHeld : State → (ℕ → List Block) → Held → Type 0
IsHeld st f (b, s) =
    (is_slob_page st (slob_page b) ≡ true)
    × InPage (slob_page b) b s
    × Disjoint b (slob_units_of s) (f (slob_page b))

abbrev pub AreDistinct : List ℕ → Type 0
AreDistinct [] = Unit
AreDistinct (x ∷ xs) = All (λ y. (y == x) ≡ false) xs × AreDistinct xs

-- A list of partially free pages of the allocator, without repetition.
pub record IsListed (st : State) (pages : List ℕ) : Type 0 where
  pub partly : All (λ k. (is_slob_page st k ≡ true) × (slob_page_free st k ≡ true)) pages
  pub distinct : AreDistinct pages

-- The invariant: `f` gives the free blocks of each page.
pub record IsHeap (st : State) (f : ℕ → List Block) (live : List Held) : Type 0 where
  pub parts : (k : ℕ) → is_slob_page st k ≡ true → IsPart st k (f k) live
  pub held : All (IsHeld st f) live
  pub apart : AreApart live
  pub listed : (i : ℕ) → IsListed st (st.lists i)
