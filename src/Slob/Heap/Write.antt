-- ===== src/Slob/Heap/Write.antt =====
-- Writes of the users of the allocator.
use cs.Common.{ℕ, ◌*◌, ◌+◌, ◌≤◌, ◌<◌, ◌≡◌, ap, ◌∙◌, true, List, arith, All-mono}
use cs.Slob.Block.{Mem, slob_units_of}
use cs.Slob.Block.FreeList.{Block, Beside}
use cs.Slob.Allocator.{State, slob_page, is_slob_page}
use cs.Slob.Allocator.Alloc.{clear}
use cs.Slob.Heap.{Held, Unused, IsHeap}
use cs.Slob.Heap.Frame.{IsBeside-of_held, FreeList-Unused}

pub IsHeap-written :
    (st : State) (f : ℕ → List Block) (live : List Held) (m : Mem)
    → IsHeap st f live
    → ((y : ℕ) → is_slob_page st (slob_page y) ≡ true → Unused y live → m y ≡ st.mem y)
    → IsHeap (record st { mem = m }) f live
IsHeap-written st f live m h same = record {
  parts = λ k slab.
      let p = h.parts k slab in
      record {
        page = record {
          list =
              FreeList-Unused st.mem m k (f k) live p.page.list
                (All-mono _ _ (IsBeside-of_held st f k) live h.held)
                (λ y lo hi. same y (page_of k y slab lo hi));
          head = p.page.head;
          count = p.page.count;
        };
        flag = p.flag;
        sum = p.sum;
      };
  held = h.held;
  apart = h.apart;
  listed = λ i. record { partly = (h.listed i).partly; distinct = (h.listed i).distinct };
}
  where
    page_of :
        (k y : ℕ)
        → is_slob_page st k ≡ true
        → k * 2048 ≤ y
        → y < k * 2048 + 2048
        → is_slob_page st (slob_page y) ≡ true
    page_of k y slab lo hi =
        let e : slob_page y ≡ k = omega (arith, lo, hi) in ap (is_slob_page st) e ∙ slab

-- `memset` on a block spares the units outside it.
pub clear-Beside :
    (m : Mem) (b size y : ℕ) → Beside y b (slob_units_of size) → clear m b size y ≡ m y
unfolding clear slob_units_of
clear-Beside m b size y beside = ground (arith, beside)
