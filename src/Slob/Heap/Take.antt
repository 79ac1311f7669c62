-- ===== src/Slob/Heap/Take.antt =====
-- `slob_page_alloc` and `slob_alloc` on the allocator as a whole.
use mathlib.Core.Path.{subst}
use cs.Common.{
  ℕ, ◌+◌, ◌*◌, ◌≤◌, ◌<◌, ◌≡◌, inl, inr, refl, sym, ap, ◌∙◌, true, false, some, List, [], ◌∷◌, arith,
  All, All-mono, ◌==◌, if◌then◌else◌, Bool-cases, update,
}
use cs.Slob.Block.{Mem, slob_units_of}
use cs.Slob.Block.FreeList.{Block, FreeList, total}
use cs.Slob.PageAlloc.Fit.{fit}
use cs.Slob.PageAlloc.Total.{total-fit}
use cs.Slob.PageFree.Refine.{Disjoint}
use cs.Slob.Allocator.{
  State, SlobPage, slob_page, is_slob_page, slob_page_free, clear_slob_page_free, without,
}
use cs.Slob.Allocator.Page.{slob_units_of-pos, Taken, start-low}
use cs.Slob.Allocator.Free.Page.{InPage}
use cs.Slob.Heap.{Used, Apart, Held, live_units, is_partly, IsPart, IsHeld, IsListed, IsHeap}
use cs.Slob.Heap.Blocks.{Disjoint-fit, fit-Disjoint}
use cs.Slob.Heap.Frame.{
  eq_of_test, at_page, test_refl, update-same, update-other, Outside-page, Local, IsPart-frame,
  IsHeld-frame, IsBeside, Used-Outside, IsBeside-of_held,
}
use cs.Slob.Heap.Listed.{IsListed-keep, IsListed-drop}

pub is_partly-total :
    (m : Mem) (k : ℕ) (bs : List Block)
    → FreeList m k bs
    → (if total bs == 0 then false else true) ≡ is_partly bs
is_partly-total m k [] f = refl
is_partly-total m k ((a, n) ∷ bs) f = ground (arith, f.0.pos)

clear-lists :
    (st : State) (sp i : ℕ) → (clear_slob_page_free st sp).lists i ≡ without sp (st.lists i)
unfolding clear_slob_page_free
clear-lists st sp i = refl

-- Blocks in different pages share no unit.
pub Apart-pages :
    (b s c v : ℕ)
    → InPage (slob_page b) b s
    → InPage (slob_page c) c v
    → (slob_page c == slob_page b) ≡ false
    → Apart b (slob_units_of s) c (slob_units_of v)
Apart-pages b s c v i j ne = ground (arith, i.low, i.high, j.low, j.high, ne)

-- Facts about the block found in the page `sp`.
module _ (sp x size : ℕ) (real : 0 < sp) (pos : 0 < size) (low : sp * 2048 ≤ x)
    (high : x + slob_units_of size ≤ sp * 2048 + 2048) where
  found_page : slob_page x ≡ sp
  found_page = omega (arith, low, high, slob_units_of-pos size pos)

  found_InPage : InPage (slob_page x) x size
  found_InPage =
      subst (λ k. InPage k x size) (sym found_page)
        (record { real = omega (arith, real, low); sized = pos; low = low; high = high })

module _ (st st' : State) (f : ℕ → List Block) (live : List Held) (sp size align x : ℕ) (q : Block)
    (bs bs' : List Block) (h : IsHeap st f live) (slab : is_slob_page st sp ≡ true)
    (at : f sp ≡ q ∷ bs) (real : 0 < sp) (pos : 0 < size)
    (e : fit (slob_units_of size) align (q ∷ bs) ≡ some (x, bs'))
    (t : Taken st sp (q ∷ bs) bs' st') where
  before : IsPart st sp (q ∷ bs) live
  before = subst (λ z. IsPart st sp z live) at (h.parts sp slab)

  place :
      (sp * 2048 ≤ x)
      × (x + slob_units_of size ≤ sp * 2048 + 2048)
      × Disjoint x (slob_units_of size) bs'
  place =
      let list = before.page.list in
      let (low, high, away) =
        fit-Disjoint st.mem sp (slob_units_of size) align (q ∷ bs) x bs'
          (slob_units_of-pos size pos) list e in
      (omega (arith, low, start-low st.mem sp (q ∷ bs) list), high, away)

  inside : InPage (slob_page x) x size
  inside = found_InPage sp x size real pos place.0 place.1

  x_page : slob_page x ≡ sp
  x_page = found_page sp x size real pos place.0 place.1

  local : Local sp st st'
  local = record {
    others = t.others;
    frame = λ y out. t.frame y (Outside-page st.mem sp y (q ∷ bs) before.page.list out);
  }

  flag_partly : slob_page_free st' sp ≡ is_partly bs'
  flag_partly = t.flag ∙ rw before.flag (is_partly-total st'.mem sp bs' t.page.list)

  units_other : (k : ℕ) → (k == sp) ≡ false → live_units k ((x, size) ∷ live) ≡ live_units k live
  units_other k ne = rw x_page (ground arith)

  take_parts :
      (k : ℕ) → is_slob_page st' k ≡ true → IsPart st' k (update f sp bs' k) ((x, size) ∷ live)
  take_parts k =
      at_page (λ k. is_slob_page st' k ≡ true → IsPart st' k (update f sp bs' k) ((x, size) ∷ live))
        sp k
        (λ _. rw (update-same f sp bs') (record {
          page = t.page;
          flag = flag_partly;
          sum =
              rw (x_page, test_refl sp)
                (omega (arith, total-fit (slob_units_of size) align (q ∷ bs) e, before.sum));
        }))
        (λ ne slab'. rw (update-other f sp bs' k ne) (
          IsPart-frame sp st st' k (f k) live ((x, size) ∷ live) local ne (units_other k ne)
            (h.parts k (sym (ap (λ (p : SlobPage). p.slab) (t.others k ne)) ∙ slab'))))

  slab_taken : is_slob_page st' sp ≡ true
  slab_taken = t.slab ∙ slab

  keeps_away :
      (c : Held)
      → 0 < slob_units_of c.1
      → Disjoint c.0 (slob_units_of c.1) (f sp)
      → Disjoint c.0 (slob_units_of c.1) bs' × Apart c.0 (slob_units_of c.1) x (slob_units_of size)
  keeps_away c u d =
      Disjoint-fit c.0 (slob_units_of c.1) (slob_units_of size) align (q ∷ bs) x bs' u e
        (subst (Disjoint c.0 (slob_units_of c.1)) at d)

  take-Apart : (c : Held) → IsHeld st f c → Apart x (slob_units_of size) c.0 (slob_units_of c.1)
  take-Apart (c, v) (_, i, d) = elim (Bool-cases (slob_page c == slob_page x)) [
    | inl here ↦
        let same : slob_page c ≡ sp = sym (eq_of_test (slob_page c) (slob_page x) here) ∙ x_page in
        let away =
          keeps_away (c, v) (slob_units_of-pos v i.sized)
            (subst (λ k. Disjoint c (slob_units_of v) (f k)) same d) in
        omega (arith, away.1)
    | inr there ↦ Apart-pages x size c v inside i there
  ]

  take-IsListed : (i : ℕ) → IsListed st' (st'.lists i)
  take-IsListed i = elim (Bool-cases (total bs' == 0)) [
    | inl empty ↦
        subst (IsListed st') (sym (ap (λ l. l i) (t.emptied (ground arith)) ∙ clear-lists st sp i))
          (IsListed-drop sp st st' t.others (st.lists i) (h.listed i))
    | inr left ↦ subst (IsListed st') (sym (ap (λ l. l i) (t.kept (ground arith)))) (
        IsListed-keep sp st st' t.others (st.lists i) slab_taken (t.flag ∙ rw left before.flag)
          (h.listed i))
  ]

  pub IsHeap-taken : IsHeap st' (update f sp bs') ((x, size) ∷ live)
  IsHeap-taken = record {
    parts = take_parts;
    held = (
      (rw x_page slab_taken, inside, rw (x_page, test_refl sp) place.2),
      All-mono _ _
          (λ c.
            IsHeld-frame sp st st' f bs' c local (λ _. (slab_taken, λ u d. (keeps_away c u d).0)))
          live h.held,
    );
    apart = (All-mono _ _ take-Apart live h.held, h.apart);
    listed = take-IsListed;
  }

  -- The units of the other blocks keep their values.
  pub frame_taken : (y : ℕ) → Used y live → st'.mem y ≡ st.mem y
  frame_taken y used = t.frame y (
      Used-Outside st.mem sp y (q ∷ bs) live before.page.list
        (subst (λ z. All (IsBeside sp z) live) at
          (All-mono _ _ (IsBeside-of_held st f sp) live h.held))
        used)
