-- ===== src/Slob/Kmalloc/Tests.antt =====
-- `kmalloc` of 100 bytes with a header of 8 bytes, on an allocator without pages.
use cs.Common.{ℕ, ◌+◌, ◌*◌, ◌/◌, ◌≤◌, ◌<◌, ◌≡◌, ◌⊎◌, refl, false, some, [], arith, ◌==◌}
use cs.Slob.Block.{slob_units_of}
use cs.Slob.PageAlloc.{align_gap, align_up}
use cs.Slob.Allocator.{State, ok}
use cs.Slob.Allocator.Free.{release_page}
use cs.Slob.Kmalloc.{kmalloc_node, kfree, ksize}
use cs.Slob.Kmalloc.RoundTrip.{kmalloc_lem}

abbrev empty_state : State
empty_state = record {
  mem = λ _. 0;
  page = λ _. record { slab = false; slob_free = false; units = 0; free = 0; private = 0 };
  lists = λ _. [];
}

page_aligned : align_gap (7 * 2048) 8 ≡ 0
unfolding align_gap align_up
page_aligned = refl

kmalloc_lem_example :
    (st' : State) × (kmalloc_node 5 empty_state 8 100 false (some 7)
      ≡ ok (st', some (7 * 2048 + 8 / 2)))
    × (ksize st' 8 (7 * 2048 + 8 / 2) ≡ ok (slob_units_of 100 * 2))
    × (kfree st' 8 (7 * 2048 + 8 / 2) ≡ ok (release_page st' 7, some 7))
    × ((i : ℕ) → (i == 7) ≡ false → st'.page i ≡ empty_state.page i)
    × ((y : ℕ) → (y < 7 * 2048) ⊎ (7 * 2048 + 2048 ≤ y) → st'.mem y ≡ 0)
kmalloc_lem_example =
    kmalloc_lem 5 empty_state 8 100 7 tt (omega arith) (omega arith) (omega arith) refl page_aligned
      (omega arith)
