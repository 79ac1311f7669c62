-- ===== src/Slob/Allocator/Alloc/FreshPage.antt =====
-- `slob_alloc` and its new page, indwriterups/project4/slob.c.
use mathlib.Core.Path.{subst, ◌∙◌}
use cs.Common.{
  ℕ, ◌+◌, ◌*◌, ◌≤◌, ◌<◌, ◌≡◌, refl, sym, ap, ◌⊎◌, inl, inr, true, false, Bool, Option, none, some,
  [], ◌∷◌, arith, ◌==◌,
}
use cs.Slob.Block.{slob_units_of}
use cs.Slob.Block.FreeList.{set_slob-IsBlock, set_slob-frame}
use cs.Slob.PageAlloc.{align_gap}
use cs.Slob.PageAlloc.Fit.{carve, fit}
use cs.Slob.Allocator.{State, ok, set_slob_page_free, size_class, slob_page_alloc}
use cs.Slob.Allocator.Page.{IsPage, slob_page_alloc_lem}
use cs.Slob.Allocator.BestFit.{BestSlob, best_fit}
use cs.Slob.Allocator.BestFit.Ends.{ArePages, best_fit_ends}
use cs.Slob.Allocator.Alloc.{scan, prepare_page, new_page, zeroed, slob_alloc}

scanned :
    (fuel : ℕ) (st : State) (size align : ℕ) (zero_it : Bool) (fresh : Option ℕ)
    (r : BestSlob × Bool)
    → best_fit st (size_class size) size align ≡ some r
    → slob_alloc fuel st size align zero_it fresh
      ≡ zeroed zero_it size (new_page st (size_class size) size align fresh)
unfolding slob_alloc scan
scanned fuel st size align zero_it fresh r e = ground arith

zeroed-null :
    (st : State) (size align : ℕ) (zero_it : Bool)
    → zeroed zero_it size (new_page st (size_class size) size align none) ≡ ok (st, none)
unfolding zeroed new_page
zeroed-null st size align true = refl
zeroed-null st size align false = refl

-- Whatever `best_fit` finds, `slob_alloc` does not use it: with well-formed pages on the list for
-- the size, it ends, and does what it does with a new page; without a new page it returns null and
-- changes nothing, though a free block may have room.
pub slob_alloc-new_page :
    (fuel : ℕ) (st : State) (size align : ℕ) (zero_it : Bool) (fresh : Option ℕ)
    → ArePages st (st.lists (size_class size))
    → (slob_alloc fuel st size align zero_it fresh
        ≡ zeroed zero_it size (new_page st (size_class size) size align fresh))
      × (slob_alloc fuel st size align zero_it none ≡ ok (st, none))
slob_alloc-new_page fuel st size align zero_it fresh pages =
    let (r, e) = best_fit_ends st (size_class size) size align pages in
    (
      scanned fuel st size align zero_it fresh r e,
      scanned fuel st size align zero_it none r e ∙ zeroed-null st size align zero_it,
    )

pub prepare_page-IsPage :
    (st : State) (list sp : ℕ) → IsPage (prepare_page st list sp) sp ((sp * 2048, 2048) ∷ [])
unfolding prepare_page set_slob_page_free
prepare_page-IsPage st list sp = record {
  list = (
    set_slob-IsBlock st.mem sp (sp * 2048) 2048 (sp * 2048 + 2048) (omega arith) (omega arith)
        (omega arith) (omega arith),
    tt,
  );
  head = ground arith;
  count = ground arith;
}

pub fit-one :
    (units align a n : ℕ)
    → units + align_gap a align ≤ n
    → fit units align ((a, n) ∷ [])
      ≡ some (a + align_gap a align, carve units (align_gap a align) a n [])
unfolding fit
fit-one units align a n le = ground arith

pub new_page-run :
    (st st' : State) (list size align sp x : ℕ)
    → slob_page_alloc (prepare_page st list sp) sp size align none none ≡ ok (st', some x)
    → new_page st list size align (some sp) ≡ ok (st', some x)
unfolding new_page
new_page-run st st' list size align sp x e = ground arith

pub page-prepare_page :
    (st : State) (list sp i : ℕ) → (i == sp) ≡ false → (prepare_page st list sp).page i ≡ st.page i
unfolding prepare_page set_slob_page_free
page-prepare_page st list sp i ne = rw ne

pub mem-prepare_page :
    (st : State) (list sp y : ℕ)
    → (y < sp * 2048) ⊎ (sp * 2048 + 2048 ≤ y)
    → (prepare_page st list sp).mem y ≡ st.mem y
unfolding prepare_page set_slob_page_free
mem-prepare_page st list sp y out =
    set_slob-frame st.mem (sp * 2048) 2048 (sp * 2048 + 2048) y (omega arith) (omega arith) out

pub slab-prepare_page : (st : State) (list sp : ℕ) → ((prepare_page st list sp).page sp).slab ≡ true
unfolding prepare_page set_slob_page_free
slab-prepare_page st list sp = ground arith

-- A fresh page has room for every size up to its own, behind the aligned address: the block lies
-- there, the rest of the page is its free list, the page is marked as one of the allocator's, and
-- other pages and memory outside it stay.
pub new_page_lem :
    (st : State) (list size align sp : ℕ)
    → 0 < size
    → slob_units_of size + align_gap (sp * 2048) align ≤ 2048
    → (st' : State) × (new_page st list size align (some sp)
        ≡ ok (st', some (sp * 2048 + align_gap (sp * 2048) align)))
      × IsPage st' sp (carve (slob_units_of size) (align_gap (sp * 2048) align) (sp * 2048) 2048 [])
      × ((i : ℕ) → (i == sp) ≡ false → st'.page i ≡ st.page i)
      × ((y : ℕ) → (y < sp * 2048) ⊎ (sp * 2048 + 2048 ≤ y) → st'.mem y ≡ st.mem y)
      × ((st'.page sp).slab ≡ true)
new_page_lem st list size align sp pos room =
    let units = slob_units_of size in
    let b = sp * 2048 in
    let d = align_gap b align in
    let here = fit-one units align b 2048 room in
    elim (slob_page_alloc_lem (prepare_page st list sp) sp size align (b, 2048) []
      (prepare_page-IsPage st list sp) pos) [
        | inl (nothing, _) ↦ absurd (cc (sym nothing ∙ here))
        | inr (x, bs', st', e, run, taken) ↦
            let x_eq : x ≡ b + d = cc (e, here) in
            let bs_eq : bs' ≡ carve units d b 2048 [] = cc (e, here) in
            (
              st',
              new_page-run st st' list size align sp _ (run ∙ ap (λ z. ok (st', some z)) x_eq),
              subst (IsPage st' sp) bs_eq taken.page,
              λ i ne. taken.others i ne ∙ page-prepare_page st list sp i ne,
              λ y out. taken.frame y (out, tt) ∙ mem-prepare_page st list sp y out,
              taken.slab ∙ slab-prepare_page st list sp,
            )
      ]
