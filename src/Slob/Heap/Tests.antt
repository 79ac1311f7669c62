-- ===== src/Slob/Heap/Tests.antt =====
-- Runs of the allocator of indwriterups/project4/slob.c: two blocks, and the first one freed.
use cs.Common.{
  ℕ, ◌+◌, ◌*◌, ◌≤◌, ◌≡◌, inl, inr, refl, ap, false, true, none, some, List, [], ◌∷◌, arith, ◌==◌,
  if◌then◌else◌,
}
use cs.Slob.Block.{slob_units_of}
use cs.Slob.Block.FreeList.{Block}
use cs.Slob.PageAlloc.{align_gap}
use cs.Slob.Allocator.{SlobPage, State, ok, is_slob_page}
use cs.Slob.Allocator.Alloc.{slob_alloc}
use cs.Slob.Allocator.Alloc.TakePage.{TakesPage, slob_alloc-TakesPage}
use cs.Slob.Allocator.Free.{slob_free}
use cs.Slob.Heap.{Held, live_units, Used, by_alloc, call, Reachable, start, IsHeap}
use cs.Slob.Heap.Reach.{Reachable-IsHeap, Call-Used, slob_free-Reachable, slob_alloc-Reachable}

abbrev empty_state : State
empty_state = record {
  mem = λ _. 0;
  page = λ _. record { slab = false; slob_free = false; units = 0; free = 0; private = 0 };
  lists = λ _. [];
}

empty_Reachable : Reachable empty_state []
empty_Reachable = start empty_state (λ k. refl) (λ i. refl)

-- A block of 24 bytes at the start of page 7.
one : (st' : State) × TakesPage 5 empty_state 24 0 7 st'
unfolding align_gap
one = slob_alloc-TakesPage 5 empty_state 24 0 7 tt (omega arith) (omega arith) refl (omega arith)

abbrev one_block : List Held
one_block = (7 * 2048, 24) ∷ []

one_Reachable : Reachable one.0 one_block
one_Reachable =
    call empty_Reachable
      (by_alloc 5 24 0 7 (7 * 2048) false one.0 (omega arith) (omega arith) refl one.1.run)

nine_free : is_slob_page one.0 9 ≡ false
nine_free = ap (λ (p : SlobPage). p.slab) (one.1.others 9 refl)

room : (size : ℕ) → size ≤ 4096 → slob_units_of size + align_gap (9 * 2048) 0 ≤ 2048
unfolding slob_units_of align_gap
room size h = omega arith

-- A page of its own, cleared, at page 9.
two :
    (st' : State) × (slob_alloc 5 one.0 4096 0 true (some 9)
      ≡ ok (st', some (9 * 2048 + align_gap (9 * 2048) 0)))
    × Reachable st' ((9 * 2048 + align_gap (9 * 2048) 0, 4096) ∷ one_block)
two =
    slob_alloc-Reachable 5 one.0 one_block 4096 0 9 true one_Reachable (omega arith) (omega arith)
      nine_free (room 4096 (omega arith))

slob_alloc-Reachable_example :
    (st' : State) × (slob_alloc 5 one.0 100 0 true (some 9)
      ≡ ok (st', some (9 * 2048 + align_gap (9 * 2048) 0)))
    × Reachable st' ((9 * 2048 + align_gap (9 * 2048) 0, 100) ∷ one_block)
slob_alloc-Reachable_example =
    slob_alloc-Reachable 5 one.0 one_block 100 0 9 true one_Reachable (omega arith) (omega arith)
      nine_free (room 100 (omega arith))

Reachable-IsHeap_example : (f : ℕ → List Block) × IsHeap one.0 f one_block
Reachable-IsHeap_example = Reachable-IsHeap one_Reachable

slob_free-Reachable_example :
    (st' : State) × (slob_free two.0 (7 * 2048) 24
      ≡ ok (
        st',
        if live_units 7 ((9 * 2048 + align_gap (9 * 2048) 0, 4096) ∷ []) == 0 then some 7 else none,
      ))
    × Reachable st' ((9 * 2048 + align_gap (9 * 2048) 0, 4096) ∷ [])
slob_free-Reachable_example =
    slob_free-Reachable two.0 ((9 * 2048 + align_gap (9 * 2048) 0, 4096) ∷ []) [] (7 * 2048) 24
      two.2

used : Used (7 * 2048 + 3) one_block
unfolding slob_units_of
used = inl (omega arith, omega arith)

Call-Used_example : two.0.mem (7 * 2048 + 3) ≡ one.0.mem (7 * 2048 + 3)
Call-Used_example =
    Call-Used one.0 two.0 one_block ((9 * 2048 + align_gap (9 * 2048) 0, 4096) ∷ one_block)
      one_Reachable
      (by_alloc 5 4096 0 9 (9 * 2048 + align_gap (9 * 2048) 0) true two.0 (omega arith)
        (omega arith) nine_free two.1)
      (7 * 2048 + 3) used (inr used)
