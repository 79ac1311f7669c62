-- ===== src/Slob/Heap/Fresh.antt =====
-- A page from the page allocator becomes a page of the allocator.
use cs.Common.{
  ℕ, ◌*◌, ◌≡◌, inl, inr, refl, sym, ap, ◌∙◌, true, false, List, [], ◌∷◌, arith, All, All-mono, ◌==◌,
  if◌then◌else◌, Bool-cases, update,
}
use cs.Slob.Block.FreeList.{Block}
use cs.Slob.Allocator.{State, SlobPage, slob_page, is_slob_page, slob_page_free, set_slob_page_free}
use cs.Slob.Allocator.Alloc.{prepare_page}
use cs.Slob.Allocator.Alloc.FreshPage.{
  prepare_page-IsPage, page-prepare_page, mem-prepare_page, slab-prepare_page,
}
use cs.Slob.Heap.{Used, Held, live_units, IsPart, IsHeld, IsHeap}
use cs.Slob.Heap.Frame.{
  eq_of_test, at_page, update-same, update-other, Local, IsPart-frame, IsHeld-frame, Elsewhere,
  Elsewhere-of_page,
}
use cs.Slob.Heap.Listed.{IsListed-put}

flag-prepare_page : (st : State) (l sp : ℕ) → slob_page_free (prepare_page st l sp) sp ≡ true
unfolding prepare_page set_slob_page_free
flag-prepare_page st l sp = ground arith

lists-prepare_page :
    (st : State) (l sp i : ℕ)
    → (prepare_page st l sp).lists i ≡ (if i == l then sp ∷ st.lists l else st.lists i)
unfolding prepare_page set_slob_page_free
lists-prepare_page st l sp i = refl

-- A page that is not the allocator's holds no block in use.
not_here :
    (st : State) (f : ℕ → List Block) (sp : ℕ) (c : Held)
    → is_slob_page st sp ≡ false
    → IsHeld st f c
    → (slob_page c.0 == sp) ≡ false
not_here st f sp c other h = elim (Bool-cases (slob_page c.0 == sp)) [
  | inl e ↦ absurd (cc (ap (is_slob_page st) (eq_of_test (slob_page c.0) sp e), other, h.0))
  | inr ne ↦ ne
]

no_live_units :
    (st : State) (f : ℕ → List Block) (sp : ℕ) (live : List Held)
    → is_slob_page st sp ≡ false
    → All (IsHeld st f) live
    → live_units sp live ≡ 0
no_live_units st f sp [] other h = refl
no_live_units st f sp (c ∷ live) other h =
    rw (not_here st f sp c other h.0) (omega (arith, no_live_units st f sp live other h.1))

module _ (st : State) (f : ℕ → List Block) (live : List Held) (l sp : ℕ) (h : IsHeap st f live)
    (other : is_slob_page st sp ≡ false) where
  abbrev whole : List Block
  whole = (sp * 2048, 2048) ∷ []

  local : Local sp st (prepare_page st l sp)
  local = record { others = page-prepare_page st l sp; frame = mem-prepare_page st l sp }

  pub IsHeap-prepared : IsHeap (prepare_page st l sp) (update f sp whole) live
  IsHeap-prepared = record {
    parts = λ k.
        at_page
          (λ k.
            is_slob_page (prepare_page st l sp) k ≡ true
            → IsPart (prepare_page st l sp) k (update f sp whole k) live)
          sp k
          (λ _. rw (update-same f sp whole) (record {
            page = prepare_page-IsPage st l sp;
            flag = flag-prepare_page st l sp;
            sum = omega (arith, no_live_units st f sp live other h.held);
          }))
          (λ ne slab. rw (update-other f sp whole k ne) (
            IsPart-frame sp st (prepare_page st l sp) k (f k) live live local ne refl
              (h.parts k (sym (ap (λ (p : SlobPage). p.slab) (local.others k ne)) ∙ slab))));
    held =
        All-mono _ _
          (λ c u.
            IsHeld-frame sp st (prepare_page st l sp) f whole c local
              (λ e. absurd (cc (not_here st f sp c other u, e))) u)
          live h.held;
    apart = h.apart;
    listed =
        IsListed-put sp st (prepare_page st l sp) local.others l (lists-prepare_page st l sp)
          (inl other) (slab-prepare_page st l sp) (flag-prepare_page st l sp) h.listed;
  }

  -- The units of blocks in use keep their values.
  pub frame_prepared : (y : ℕ) → Used y live → (prepare_page st l sp).mem y ≡ st.mem y
  frame_prepared y used = mem-prepare_page st l sp y (used_elsewhere live h.held used)
    where
      used_elsewhere : (cs : List Held) → All (IsHeld st f) cs → Used y cs → Elsewhere sp y
      used_elsewhere [] held u = absurd u
      used_elsewhere (c ∷ cs) (here, later) (inl (low, high)) =
          Elsewhere-of_page sp (slob_page c.0) y (not_here st f sp c other here)
            (omega (arith, low, here.1.low)) (omega (arith, high, here.1.high))
      used_elsewhere (c ∷ cs) (here, later) (inr u) = used_elsewhere cs later u
