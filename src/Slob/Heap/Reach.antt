-- ===== src/Slob/Heap/Reach.antt =====
-- The runs of the allocator and its users, indwriterups/project4/slob.c: what holds in every state
-- that they reach, and what each call does there.
use mathlib.Core.Path.{subst}
use cs.Common.{
  ℕ, ◌+◌, ◌*◌, ◌≤◌, ◌<◌, ◌≡◌, inl, inr, refl, sym, ap, ◌∙◌, Bool, false, Option, none, some, List,
  [], ◌∷◌, ◌++◌, ◌==◌, if◌then◌else◌,
}
use cs.Slob.Block.{slob_units_of}
use cs.Slob.Block.FreeList.{Block}
use cs.Slob.PageAlloc.{align_gap}
use cs.Slob.Allocator.{State, ok, slob_page, is_slob_page}
use cs.Slob.Allocator.Alloc.{slob_alloc}
use cs.Slob.Allocator.Alloc.FreshPage.{fit-one}
use cs.Slob.Allocator.Free.{slob_free}
use cs.Slob.Heap.{
  Held, live_units, Used, Call, by_alloc, by_page_alloc, by_free, Reachable, start, call, write,
  IsListed, IsHeap,
}
use cs.Slob.Heap.Write.{IsHeap-written}
use cs.Slob.Heap.Give.{Freeable, heap_freed}
use cs.Slob.Heap.Calls.{Grows, IsHeap-front, heap_page_alloc, heap_alloc}

-- A call keeps the invariant, and the units that are in use before and after it.
Called : (st st' : State) (live live' : List Held) → Type 0
Called st st' live live' =
    ((f : ℕ → List Block) × IsHeap st' f live')
    × ((y : ℕ) → Used y live → Used y live' → st'.mem y ≡ st.mem y)

Called-of_Grows :
    (st st' : State) (live live' : List Held) → Grows st st' live live' → Called st st' live live'
unfolding Grows Called
Called-of_Grows st st' live live' g = (g.0, λ y used _. g.1 y used)

free-Called :
    (st st' : State) (f : ℕ → List Block) (xs ys : List Held) (b size : ℕ) (page : Option ℕ)
    → IsHeap st f (xs ++ (b, size) ∷ ys)
    → slob_free st b size ≡ ok (st', page)
    → Called st st' (xs ++ (b, size) ∷ ys) (xs ++ ys)
unfolding Called Freeable
free-Called st st' f xs ys b size page h run =
    let (st1, g, run', h', same) =
      heap_freed st f b size (xs ++ ys) (slob_page b) (IsHeap-front st f xs (b, size) ys h) refl in
    subst (λ s. Called st s (xs ++ (b, size) ∷ ys) (xs ++ ys)) (cc (run', run))
      ((g, h'), λ y _ used. same y used)

alloc-Called :
    (fuel : ℕ) (st st' : State) (f : ℕ → List Block) (live : List Held) (size align sp x : ℕ)
    (zero_it : Bool)
    → IsHeap st f live
    → 0 < size
    → 0 < sp
    → is_slob_page st sp ≡ false
    → slob_alloc fuel st size align zero_it (some sp) ≡ ok (st', some x)
    → Called st st' live ((x, size) ∷ live)
alloc-Called fuel st st' f live size align sp x zero_it h pos real other run =
    elim (heap_alloc fuel st f live size align sp zero_it h pos real other) [
      | inl (_, run') ↦ absurd (cc (run, run'))
      | inr (x1, bs, st1, e, run', g) ↦
          let same : ok (st1, some x1) ≡ ok (st', some x) = sym run' ∙ run in
          Called-of_Grows st st' live ((x, size) ∷ live) (
            subst (λ s. Grows st s live ((x, size) ∷ live)) (cc same)
              (subst (λ y. Grows st st1 live ((y, size) ∷ live)) (cc same) g))
    ]

Call-Called :
    (st st' : State) (f : ℕ → List Block) (live live' : List Held)
    → IsHeap st f live
    → Call st live st' live'
    → Called st st' live live'
Call-Called st st' f live _ h (by_alloc fuel size align sp x zero_it _ pos real other run) =
    alloc-Called fuel st st' f live size align sp x zero_it h pos real other run
Call-Called st st' f live _ h (by_page_alloc sp size align x _ pos real slab flag run) =
    Called-of_Grows st st' live ((x, size) ∷ live)
      (heap_page_alloc st st' f live sp size align x h pos real slab flag run)
Call-Called st st' f live _ h (by_free xs ys b size _ page at run) =
    subst (λ l. Called st st' l (xs ++ ys)) (sym at)
      (free-Called st st' f xs ys b size page (subst (IsHeap st f) at h) run)

-- In every state that the allocator can get into, where between calls anything may be written
-- but the units of its pages that nobody holds, there are free lists of its pages such that:
-- memory, `free` field, counter and flag of each page agree with them; the free units and the
-- units in use of each page are 2048 together; each block in use lies in a page of the allocator
-- and shares no unit with a free block or with another block in use; and the lists hold
-- partially free pages of the allocator, none of them twice.
pub Reachable-IsHeap :
    {st : State} {live : List Held} → Reachable st live → (f : ℕ → List Block) × IsHeap st f live
unfolding Called
Reachable-IsHeap (start st none_slab empty) = (
  λ _. [],
  record {
    parts = λ k slab. absurd (cc (slab, none_slab k));
    held = tt;
    apart = tt;
    listed = λ i. subst (IsListed st) (sym (empty i)) (record { partly = tt; distinct = tt });
  },
)
Reachable-IsHeap (call r c) = let (f, h) = Reachable-IsHeap r in (Call-Called _ _ f _ _ h c).0
Reachable-IsHeap (write m r same) =
    let (f, h) = Reachable-IsHeap r in (f, IsHeap-written _ f _ m h same)

-- No call changes a unit of a block that is in use before and after it.
pub Call-Used :
    (st st' : State) (live live' : List Held)
    → Reachable st live
    → Call st live st' live'
    → (y : ℕ) → Used y live
    → Used y live'
    → st'.mem y ≡ st.mem y
unfolding Called
Call-Used st st' live live' r c y before after =
    let (f, h) = Reachable-IsHeap r in (Call-Called st st' f live live' h c).1 y before after

-- In every reachable state, `slob_free` of any block in use, with its size, ends without a BUG.
-- The page of the block goes back to the page allocator exactly if no other block in use lies in
-- it, and the state is one that can be reached without the block.
pub slob_free-Reachable :
    (st : State) (xs ys : List Held) (b size : ℕ)
    → Reachable st (xs ++ (b, size) ∷ ys)
    → (st' : State) × (slob_free st b size
        ≡ ok (st', if live_units (slob_page b) (xs ++ ys) == 0 then some (slob_page b) else none))
      × Reachable st' (xs ++ ys)
unfolding Freeable
slob_free-Reachable st xs ys b size r =
    let (f, h) = Reachable-IsHeap r in
    let (st', g, run, _, _) =
      heap_freed st f b size (xs ++ ys) (slob_page b) (IsHeap-front st f xs (b, size) ys h) refl in
    (st', run, call r (by_free xs ys b size st' _ refl run))

-- In every reachable state, with a new page at hand that is not the allocator's, `slob_alloc` of a
-- size that has room in the page behind its aligned address ends without a BUG, returns that
-- address, and the state is one that can be reached with the new block in use.
pub slob_alloc-Reachable :
    (fuel : ℕ) (st : State) (live : List Held) (size align sp : ℕ) (zero_it : Bool)
    → Reachable st live
    → 0 < size
    → 0 < sp
    → is_slob_page st sp ≡ false
    → slob_units_of size + align_gap (sp * 2048) align ≤ 2048
    → (st' : State) × (slob_alloc fuel st size align zero_it (some sp)
        ≡ ok (st', some (sp * 2048 + align_gap (sp * 2048) align)))
      × Reachable st' ((sp * 2048 + align_gap (sp * 2048) align, size) ∷ live)
slob_alloc-Reachable fuel st live size align sp zero_it r pos real other room =
    let (f, h) = Reachable-IsHeap r in
    let fits = fit-one (slob_units_of size) align (sp * 2048) 2048 room in
    elim (heap_alloc fuel st f live size align sp zero_it h pos real other) [
      | inl (none_fits, _) ↦ absurd (cc (none_fits, fits))
      | inr (x, bs, st', e, run, _) ↦
          let at : x ≡ sp * 2048 + align_gap (sp * 2048) align = cc (e, fits) in
          let run' = run ∙ ap (λ z. ok (st', some z)) at in
          (st', run', call r (by_alloc fuel size align sp _ zero_it st' pos real other run'))
    ]
