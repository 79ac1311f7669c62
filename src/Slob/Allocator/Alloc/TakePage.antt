-- ===== src/Slob/Allocator/Alloc/TakePage.antt =====
-- A block of `slob_alloc` in a new page, and `slob_free` of it.
use cs.Common.{
  ℕ, ◌+◌, ◌*◌, ◌≤◌, ◌<◌, ◌≡◌, ◌⊎◌, refl, ap, ◌∙◌, true, false, Option, some, [], arith, ◌==◌,
}
use cs.Slob.Block.{Mem, slob_units_of}
use cs.Slob.Block.FreeList.{total}
use cs.Slob.PageAlloc.{align_gap}
use cs.Slob.PageAlloc.Fit.{carve, shrink}
use cs.Slob.Allocator.{State, Run, ok, size_class}
use cs.Slob.Allocator.BestFit.Ends.{ArePages}
use cs.Slob.Allocator.Alloc.{slob_alloc, zeroed}
use cs.Slob.Allocator.Alloc.FreshPage.{slob_alloc-new_page, new_page_lem}
use cs.Slob.Allocator.Free.{release_page, slob_free}
use cs.Slob.Allocator.Free.Page.{InPage, run_release}

zeroed-run : (size : ℕ) (r : Run (State × Option ℕ)) → zeroed false size r ≡ r
unfolding zeroed
zeroed-run size r = refl

total-at : (units a d : ℕ) → d ≡ 0 → units ≤ 2048 → total (carve units d a 2048 []) + units ≡ 2048
unfolding carve shrink
total-at units a d e le = ground arith

slob_units_of-page : (size : ℕ) → size ≤ 4096 → slob_units_of size ≤ 2048
unfolding slob_units_of
slob_units_of-page size le = omega arith

-- The block of `size` bytes at the start of the new page `sp` is allocated, and freeing it gives
-- the page back, whatever was written to memory in between.
pub record TakesPage (fuel : ℕ) (st : State) (size align sp : ℕ) (st' : State) : Type 0 where
  pub run : slob_alloc fuel st size align false (some sp) ≡ ok (st', some (sp * 2048))
  pub back :
      (m : Mem)
      → slob_free (record st' { mem = m }) (sp * 2048) size
        ≡ ok (release_page (record st' { mem = m }) sp, some sp)
  pub slab : (st'.page sp).slab ≡ true
  pub others : (i : ℕ) → (i == sp) ≡ false → st'.page i ≡ st.page i
  pub frame : (y : ℕ) → (y < sp * 2048) ⊎ (sp * 2048 + 2048 ≤ y) → st'.mem y ≡ st.mem y

pub slob_alloc-TakesPage :
    (fuel : ℕ) (st : State) (size align sp : ℕ)
    → ArePages st (st.lists (size_class size))
    → 0 < size
    → size ≤ 4096
    → align_gap (sp * 2048) align ≡ 0
    → 0 < sp
    → (st' : State) × TakesPage fuel st size align sp st'
slob_alloc-TakesPage fuel st size align sp pages pos small aligned real =
    let units = slob_units_of size in
    let m = sp * 2048 in
    let few : units ≤ 2048 = slob_units_of-page size small in
    let (st1, run, page, others, frame, slab) =
      new_page_lem st (size_class size) size align sp pos (rw aligned (omega (arith, few))) in
    let left : (st1.page sp).units + units ≡ 2048 =
      rw page.count (total-at units m (align_gap m align) aligned few) in
    let start_at : m + align_gap m align ≡ m = omega (arith, aligned) in
    let inside : InPage sp m size = record {
      real = omega arith;
      sized = pos;
      low = omega arith;
      high = omega (arith, few);
    } in
    (
      st1,
      record {
        run =
            (slob_alloc-new_page fuel st size align false (some sp) pages).0
            ∙ (zeroed-run size _ ∙ (run ∙ ap (λ (x : ℕ). ok (st1, some x)) start_at));
        back = λ mem. run_release (record st1 { mem = mem }) sp m size inside left;
        slab = slab;
        others = others;
        frame = frame;
      },
    )
