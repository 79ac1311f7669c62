-- ===== src/Slob/Heap/Give.antt =====
-- `slob_free` on the allocator as a whole.
use mathlib.Core.Path.{subst}
use cs.Common.{
  ℕ, ◌+◌, ◌<◌, ◌≡◌, inl, inr, refl, sym, ap, ◌∙◌, true, false, Option, none, some, List, [], ◌∷◌,
  arith, All, All-mono, All-zip, ◌==◌, if◌then◌else◌, Bool-cases, update,
}
use cs.Slob.Block.{slob_units_of}
use cs.Slob.Block.FreeList.{Block, total}
use cs.Slob.PageFree.Insert.{insert_free}
use cs.Slob.PageFree.Refine.{Disjoint}
use cs.Slob.Allocator.{
  State, SlobPage, ok, slob_page, is_slob_page, slob_page_free, clear_slob_page_free, without,
  size_class,
}
use cs.Slob.Allocator.Page.{slob_units_of-pos, IsPage}
use cs.Slob.Allocator.Free.{release_page, slob_free}
use cs.Slob.Allocator.Free.Insert.{total-insert_free}
use cs.Slob.Allocator.Free.Page.{InPage, Given, run_release, slob_free_lem, slob_free-first}
use cs.Slob.Heap.{Used, Held, live_units, is_partly, IsPart, IsHeld, IsListed, IsHeap}
use cs.Slob.Heap.Blocks.{Disjoint-insert_free}
use cs.Slob.Heap.Frame.{
  eq_of_test, at_page, test_refl, update-same, update-other, Outside-page, Local, IsPart-frame,
  IsHeld-frame, Used-Beside, Used-Outside, IsBeside-of_held,
}
use cs.Slob.Heap.Listed.{IsListed-keep, IsListed-drop, IsListed-stay, IsListed-put}

partly_of_total : (bs : List Block) → 0 < total bs → is_partly bs ≡ true
partly_of_total [] h = absurd (omega arith)
partly_of_total (q ∷ bs) h = refl

-- Without units in use, a page holds no block in use.
none_here :
    (st : State) (f : ℕ → List Block) (sp : ℕ) (live : List Held)
    → live_units sp live ≡ 0
    → All (IsHeld st f) live
    → All (λ c. (slob_page c.0 == sp) ≡ false) live
unfolding slob_units_of
none_here st f sp [] e h = tt
none_here st f sp ((b, s) ∷ live) e h = elim (Bool-cases (slob_page b == sp)) [
  | inl here ↦ absurd (ground (arith, h.0.1.sized))
  | inr there ↦ (there, none_here st f sp live (ground arith) h.1)
]

-- The page `sp` goes back to the page allocator.
module _ (st : State) (f : ℕ → List Block) (live : List Held) (sp : ℕ) where
  page-release : (k : ℕ) → (k == sp) ≡ false → (release_page st sp).page k ≡ st.page k
  unfolding release_page clear_slob_page_free
  page-release k ne = ground arith

  slab-release : is_slob_page (release_page st sp) sp ≡ false
  unfolding release_page clear_slob_page_free
  slab-release = ground arith

  mem-release : (y : ℕ) → (release_page st sp).mem y ≡ st.mem y
  unfolding release_page clear_slob_page_free
  mem-release y = ground arith

  lists-release :
      (i : ℕ)
      → (release_page st sp).lists i
        ≡ (if slob_page_free st sp then without sp (st.lists i) else st.lists i)
  unfolding release_page clear_slob_page_free
  lists-release i = ground arith

  release-Local : Local sp st (release_page st sp)
  release-Local = record { others = page-release; frame = λ y _. mem-release y }

  release-IsListed :
      ((i : ℕ) → IsListed st (st.lists i))
      → (i : ℕ) → IsListed (release_page st sp) ((release_page st sp).lists i)
  release-IsListed h i = elim (Bool-cases (slob_page_free st sp)) [
    | inl partly ↦
        subst (IsListed (release_page st sp)) (sym (lists-release i ∙ rw partly refl))
          (IsListed-drop sp st (release_page st sp) page-release (st.lists i) (h i))
    | inr full ↦
        subst (IsListed (release_page st sp)) (sym (lists-release i ∙ rw full refl))
          (IsListed-stay sp st (release_page st sp) page-release (st.lists i) (inr full) (h i)).0
  ]

-- The block `(b, s)` of the page `sp` is taken back.
module _ (st : State) (f : ℕ → List Block) (b s : ℕ) (live : List Held) (sp : ℕ)
    (h : IsHeap st f ((b, s) ∷ live)) (b_page : slob_page b ≡ sp) where
  held_part : IsPart st sp (f sp) ((b, s) ∷ live)
  held_part = h.parts sp (subst (λ k. is_slob_page st k ≡ true) b_page h.held.0.0)

  held_InPage : InPage sp b s
  held_InPage = subst (λ k. InPage k b s) b_page h.held.0.1

  held_slab : is_slob_page st sp ≡ true
  held_slab = subst (λ k. is_slob_page st k ≡ true) b_page h.held.0.0

  held_away : Disjoint b (slob_units_of s) (f sp)
  held_away = subst (λ k. Disjoint b (slob_units_of s) (f k)) b_page h.held.0.2

  sum_here : total (f sp) + (slob_units_of s + live_units sp live) ≡ 2048
  sum_here =
      let e : live_units sp ((b, s) ∷ live) ≡ slob_units_of s + live_units sp live =
        rw (b_page, test_refl sp) refl in
      omega (arith, e, held_part.sum)

  units_there : (k : ℕ) → (k == sp) ≡ false → live_units k live ≡ live_units k ((b, s) ∷ live)
  units_there k ne = rw b_page (ground arith)

  -- A change of `sp` leaves the other parts.
  part_there :
      (st' : State)
      → Local sp st st'
      → (k : ℕ) → (k == sp) ≡ false
      → is_slob_page st' k ≡ true
      → IsPart st' k (f k) live
  part_there st' l k ne slab =
      IsPart-frame sp st st' k (f k) ((b, s) ∷ live) live l ne (units_there k ne)
        (h.parts k (sym (ap (λ (p : SlobPage). p.slab) (l.others k ne)) ∙ slab))

  IsHeap-released : live_units sp live ≡ 0 → IsHeap (release_page st sp) (update f sp []) live
  IsHeap-released none_left =
      let st' = release_page st sp in
      let l = release-Local st f live sp in
      record {
        parts = λ k.
            at_page (λ k. is_slob_page st' k ≡ true → IsPart st' k (update f sp [] k) live) sp k
              (λ slab. absurd (cc (slab, slab-release st f live sp)))
              (λ ne slab. rw (update-other f sp [] k ne) (part_there st' l k ne slab));
        held =
            All-zip _ _ _ (λ c ne u. IsHeld-frame sp st st' f [] c l (λ e. absurd (cc (ne, e))) u)
              live (none_here st f sp live none_left h.held.1) h.held.1;
        apart = h.apart.1;
        listed = release-IsListed st f live sp h.listed;
      }

  module _ (st' : State)
      (g : Given st sp b (slob_units_of s) (f sp) (insert_free (b, slob_units_of s) (f sp)) st')
      (listed : (i : ℕ) → IsListed st' (st'.lists i)) where
    given-Local : Local sp st st'
    given-Local = record {
      others = g.others;
      frame = λ y out.
          g.frame y (omega (arith, out, held_InPage.low, held_InPage.high))
            (Outside-page st.mem sp y (f sp) held_part.page.list out);
    }

    given_slab : is_slob_page st' sp ≡ true
    given_slab = g.slab ∙ held_slab

    sum_given : total (insert_free (b, slob_units_of s) (f sp)) + live_units sp live ≡ 2048
    sum_given = omega (arith, total-insert_free (b, slob_units_of s) (f sp), sum_here)

    given_partly : is_partly (insert_free (b, slob_units_of s) (f sp)) ≡ true
    given_partly = partly_of_total _ (
        omega (
          arith,
          slob_units_of-pos s held_InPage.sized,
          total-insert_free (b, slob_units_of s) (f sp),
        ))

    IsHeap-inserted : IsHeap st' (update f sp (insert_free (b, slob_units_of s) (f sp))) live
    IsHeap-inserted =
        let bs' = insert_free (b, slob_units_of s) (f sp) in
        record {
          parts = λ k.
              at_page (λ k. is_slob_page st' k ≡ true → IsPart st' k (update f sp bs' k) live) sp k
                (λ slab.
                  rw (update-same f sp bs')
                    (record { page = g.page; flag = g.flag ∙ sym given_partly; sum = sum_given }))
                (λ ne slab. rw (update-other f sp bs' k ne) (part_there st' given-Local k ne slab));
          held =
              All-zip _ _ _
                (λ c apart u.
                  IsHeld-frame sp st st' f bs' c given-Local
                    (λ e. (
                      given_slab,
                      λ pos away.
                          Disjoint-insert_free c.0 (slob_units_of c.1) b (slob_units_of s) (f sp)
                            pos (omega (arith, apart)) away,
                    ))
                    u)
                live h.apart.0 h.held.1;
          apart = h.apart.1;
          listed = listed;
        }

  -- The page goes back exactly if nobody holds another block of it.
  abbrev pub returned : Option ℕ
  returned = if live_units sp live == 0 then some sp else none

  unfoldable pub Freeable : Type 0
  Freeable =
      (st' : State) × (g : ℕ → List Block) × (slob_free st b s ≡ ok (st', returned))
      × IsHeap st' g live
      × ((y : ℕ) → Used y live → st'.mem y ≡ st.mem y)

  released : live_units sp live ≡ 0 → Freeable
  unfolding Freeable
  released none_left = (
    release_page st sp,
    update f sp [],
    run_release st sp b s held_InPage (omega (arith, held_part.page.count, sum_here))
        ∙ rw none_left refl,
    IsHeap-released none_left,
    λ y _. mem-release st f live sp y,
  )

  kept :
      (st' : State)
      → 0 < live_units sp live
      → slob_free st b s ≡ ok (st', none)
      → Given st sp b (slob_units_of s) (f sp) (insert_free (b, slob_units_of s) (f sp)) st'
      → ((i : ℕ) → IsListed st' (st'.lists i))
      → Freeable
  unfolding Freeable
  kept st' some_left run g listed =
      let e : (live_units sp live == 0) ≡ false = ground arith in
      (
        st',
        update f sp (insert_free (b, slob_units_of s) (f sp)),
        run ∙ rw e refl,
        IsHeap-inserted st' g listed,
        λ y used. g.frame y (Used-Beside y b (slob_units_of s) live h.apart.0 used) (
            Used-Outside st.mem sp y (f sp) live held_part.page.list
              (All-mono _ _ (IsBeside-of_held st f sp) live h.held.1) used),
      )

  free_full : f sp ≡ [] → Freeable
  unfolding insert_free
  free_full none_free =
      let nothing : total (f sp) ≡ 0 = ap total none_free in
      elim (Bool-cases (live_units sp live == 0)) [
        | inl last ↦ released (ground arith)
        | inr others ↦
            let few : slob_units_of s < 2048 = ground (arith, sum_here) in
            let flag : slob_page_free st sp ≡ false = held_part.flag ∙ ap is_partly none_free in
            let (st', run, partly, here, there, g) =
              slob_free-first st sp b s (held_part.page.count ∙ nothing) flag held_InPage few in
            kept st' (ground arith) run
              (subst
                (λ z. Given st sp b (slob_units_of s) z (insert_free (b, slob_units_of s) z) st')
                (sym none_free) g)
              (IsListed-put sp st st' g.others (size_class s) (lists_cases st' here there)
                (inr flag) (g.slab ∙ held_slab) partly h.listed)
      ]
    where
      lists_cases :
          (st' : State)
          → st'.lists (size_class s) ≡ sp ∷ st.lists (size_class s)
          → ((i : ℕ) → (i == size_class s) ≡ false → st'.lists i ≡ st.lists i)
          → (i : ℕ)
          → st'.lists i ≡ (if i == size_class s then sp ∷ st.lists (size_class s) else st.lists i)
      lists_cases st' here there i = elim (Bool-cases (i == size_class s)) [
        | inl e ↦ ap st'.lists (sym (eq_of_test i (size_class s) e)) ∙ (here ∙ rw e refl)
        | inr ne ↦ there i ne ∙ rw ne refl
      ]

  free_partly : (q : Block) (bs : List Block) → f sp ≡ q ∷ bs → Freeable
  free_partly q bs at =
      let u = slob_units_of s in
      let partly : slob_page_free st sp ≡ true = held_part.flag ∙ ap is_partly at in
      let free : total (f sp) ≡ total (q ∷ bs) = ap total at in
      elim (slob_free_lem st sp b s q bs (subst (IsPage st sp) at held_part.page) partly held_InPage
        (subst (Disjoint b u) at held_away)) [
          | inl (full, _) ↦ released (omega (arith, full, sum_here))
          | inr (few, st', run, lists, g) ↦
              kept st' (omega (arith, few, sum_here)) run
                (subst (λ z. Given st sp b u z (insert_free (b, u) z) st') (sym at) g)
                (λ i. subst (IsListed st') (sym (ap (λ l. l i) lists)) (
                  IsListed-keep sp st st' g.others (st.lists i) (g.slab ∙ held_slab) g.flag
                    (h.listed i)))
        ]

  free_of : (bs : List Block) → f sp ≡ bs → Freeable
  free_of [] at = free_full at
  free_of (q ∷ bs) at = free_partly q bs at

  -- Freeing a block in use ends, and leaves a heap.
  pub heap_freed : Freeable
  heap_freed = free_of (f sp) refl
