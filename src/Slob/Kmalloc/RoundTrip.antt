-- ===== src/Slob/Kmalloc/RoundTrip.antt =====
-- `ksize` and `kfree` of what `__kmalloc_node` returns.
use cs.Common.{
  ℕ, ◌+◌, ◌-◌, ◌*◌, ◌/◌, ◌%◌, ◌≤◌, ◌<◌, ◌≡◌, ◌⊎◌, inl, inr, ◌∙◌, true, false, Option, some, arith,
  ◌==◌,
}
use cs.Slob.Block.{Mem, slob_units_of}
use cs.Slob.PageAlloc.{align_gap}
use cs.Slob.Allocator.{State, Run, ok, slob_page, is_slob_page, size_class}
use cs.Slob.Allocator.BestFit.Ends.{ArePages}
use cs.Slob.Allocator.Alloc.{slob_alloc}
use cs.Slob.Allocator.Alloc.TakePage.{slob_alloc-TakesPage}
use cs.Slob.Allocator.Free.{release_page, slob_free}
use cs.Slob.Kmalloc.{write_size, read_size, label_block, kmalloc_node, kfree, ksize}

pub read_size-write_size :
    (mem : Mem) (m size : ℕ) → size < 4294967296 → read_size (write_size mem m size) m ≡ size
unfolding read_size write_size
read_size-write_size mem m size small = ground arith

kmalloc_node-run :
    (fuel : ℕ) (st st' : State) (align size m : ℕ) (fresh : Option ℕ)
    → 0 < size
    → size < 4096 - align
    → slob_alloc fuel st (size + align) align false fresh ≡ ok (st', some m)
    → kmalloc_node fuel st align size false fresh
      ≡ ok (record st' { mem = write_size st'.mem m size }, some (m + align / 2))
unfolding kmalloc_node label_block
kmalloc_node-run fuel st st' align size m fresh pos small e = ground arith

ksize-run :
    (st : State) (align block sp size : ℕ)
    → slob_page block ≡ sp
    → 8 < block
    → is_slob_page st sp ≡ true
    → read_size st.mem (block - align / 2) ≡ size
    → ksize st align block ≡ ok (slob_units_of size * 2)
unfolding ksize
ksize-run st align block sp size at real slab reads = ground arith

kfree-run :
    (st : State) (align block sp size m : ℕ) (r : Run (State × Option ℕ))
    → slob_page block ≡ sp
    → 8 < block
    → is_slob_page st sp ≡ true
    → block - align / 2 ≡ m
    → read_size st.mem m ≡ size
    → slob_free st m (size + align) ≡ r
    → kfree st align block ≡ r
unfolding kfree
kfree-run st align block sp size m r at real slab starts reads frees = ground arith

pub write_size-frame :
    (mem : Mem) (m size y : ℕ) → (y < m) ⊎ (m + 2 ≤ y) → write_size mem m size y ≡ mem y
unfolding write_size
write_size-frame mem m size y (inl below) = ground arith
write_size-frame mem m size y (inr above) = ground arith

-- A `kmalloc` of 1 to 4095 bytes less the header, with well-formed pages on the list for its size,
-- an even header of at least 4 bytes and a new page that starts aligned, takes the new page and
-- returns the address behind the header at its start. `ksize` of it is the size rounded up to a
-- unit, and `kfree` of it gives the page back. Other pages and the memory outside the page stay.
pub kmalloc_lem :
    (fuel : ℕ) (st : State) (align size sp : ℕ)
    → ArePages st (st.lists (size_class (size + align)))
    → 0 < size
    → size + align < 4096
    → 4 ≤ align
    → align % 2 ≡ 0
    → align_gap (sp * 2048) align ≡ 0
    → 0 < sp
    → (st' : State) × (kmalloc_node fuel st align size false (some sp)
        ≡ ok (st', some (sp * 2048 + align / 2)))
      × (ksize st' align (sp * 2048 + align / 2) ≡ ok (slob_units_of size * 2))
      × (kfree st' align (sp * 2048 + align / 2) ≡ ok (release_page st' sp, some sp))
      × ((i : ℕ) → (i == sp) ≡ false → st'.page i ≡ st.page i)
      × ((y : ℕ) → (y < sp * 2048) ⊎ (sp * 2048 + 2048 ≤ y) → st'.mem y ≡ st.mem y)
kmalloc_lem fuel st align size sp pages pos small header even aligned real =
    let m = sp * 2048 in
    let block = m + align / 2 in
    let (st1, t) =
      slob_alloc-TakesPage fuel st (size + align) align sp pages (omega arith) (omega arith) aligned
        real in
    let st2 : State = record st1 { mem = write_size st1.mem m size } in
    let reads : read_size st2.mem m ≡ size = read_size-write_size st1.mem m size (omega arith) in
    let at : slob_page block ≡ sp = omega arith in
    let starts : block - align / 2 ≡ m = omega arith in
    (
      st2,
      kmalloc_node-run fuel st st1 align size m (some sp) pos (omega arith) t.run,
      ksize-run st2 align block sp size at (omega arith) t.slab (rw starts reads),
      kfree-run st2 align block sp size m (ok (release_page st2 sp, some sp)) at (omega arith)
          t.slab starts reads (t.back st2.mem),
      t.others,
      λ y out. write_size-frame st1.mem m size y (omega (arith, out)) ∙ t.frame y out,
    )
