-- ===== src/Slob/Allocator/BestFit/Ends.antt =====
-- `best_fit` on lists of pages whose free lists are well formed.
use mathlib.Core.Path.{◌∙◌}
use cs.Common.{
  refl, ◌||◌, ℕ, zero, suc, ◌<◌, ◌≡◌, inl, inr, true, false, Bool, Option, none, some, List, [],
  ◌∷◌, arith, if◌then◌else◌, Bool-cases, All, length,
}
use cs.Slob.Block.{Mem, slob_units_of, slob_last, slob_next}
use cs.Slob.Block.FreeList.{Block, FreeList, FreeList-length, slob_last-end, slob_last-inner}
use cs.Slob.Allocator.{State}
use cs.Slob.Allocator.Page.{IsPage}
use cs.Slob.Allocator.BestFit.{
  BestSlob, better, best_in_page, best_in_list, is_found, no_slob, best_fit,
}

module _ (m : Mem) (units align sp : ℕ) where
  page_stop :
      (fuel : ℕ) (prev : Option ℕ) (a : ℕ) (b : BestSlob)
      → ((better m units align sp prev a b).1 || slob_last m a) ≡ true
      → best_in_page (suc fuel) m units align sp prev a b ≡ some (better m units align sp prev a b)
  unfolding best_in_page
  page_stop fuel prev a b h = ground arith

  page_step :
      (fuel : ℕ) (prev : Option ℕ) (a c : ℕ) (b : BestSlob)
      → (better m units align sp prev a b).1 ≡ false
      → slob_last m a ≡ false
      → slob_next m a ≡ c
      → best_in_page (suc fuel) m units align sp prev a b
        ≡ best_in_page fuel m units align sp (some a) c (better m units align sp prev a b).0
  unfolding best_in_page
  page_step fuel prev a c b h l e = ground arith

  -- A walk ends at an exact fit or at the last block.
  best_in_page_ends :
      (fuel k : ℕ) (prev : Option ℕ) (a n : ℕ) (bs : List Block) (b : BestSlob)
      → FreeList m k ((a, n) ∷ bs)
      → length bs < fuel
      → (r : BestSlob × Bool) × (best_in_page fuel m units align sp prev a b ≡ some r)
  best_in_page_ends zero k prev a n bs b f enough = absurd (omega arith)
  best_in_page_ends (suc fuel) k prev a n [] b f enough =
      (_, page_stop fuel prev a b (ground (arith, slob_last-end f.0 refl)))
  best_in_page_ends (suc fuel) k prev a n ((c, w) ∷ bs) b f enough =
      elim (Bool-cases (better m units align sp prev a b).1) [
        | inl exact ↦ (_, page_stop fuel prev a b (ground arith))
        | inr other ↦
            let (r, e) =
              best_in_page_ends fuel k (some a) c w bs (better m units align sp prev a b).0 f.1
                (omega arith) in
            (
              r,
              page_step fuel prev a c b other
                    (slob_last-inner f.0 (omega (arith, f.1.0.pos, f.1.0.room, f.1.0.high)))
                    f.0.link
                  ∙ e,
            )
      ]

-- The pages of a list have free blocks, and their memory, `free` fields and counters agree.
abbrev pub ArePages : State → List ℕ → Type 0
ArePages st = All (λ sp. (q : Block) × (bs : List Block) × IsPage st sp (q ∷ bs))

list_step :
    (st : State) (units align sp : ℕ) (pages : List ℕ) (b : BestSlob) (r : BestSlob × Bool)
    → best_in_page 2048 st.mem units align sp none (st.page sp).free b ≡ some r
    → best_in_list st units align (sp ∷ pages) b
      ≡ (if r.1 then some r.0 else best_in_list st units align pages r.0)
unfolding best_in_list
list_step st units align sp pages b r e = ground arith

best_in_list_ends :
    (st : State) (units align : ℕ) (pages : List ℕ) (b : BestSlob)
    → ArePages st pages
    → (r : BestSlob) × (best_in_list st units align pages b ≡ some r)
unfolding best_in_list
best_in_list_ends st units align [] b h = (b, refl)
best_in_list_ends st units align (sp ∷ pages) b h =
    let (q, bs, p) = h.0 in
    let few : length bs < 2048 =
      omega
        (arith, FreeList-length st.mem sp bs p.list.1, p.list.0.room, p.list.0.low, p.list.0.pos) in
    let (r, e) = best_in_page_ends st.mem units align sp 2048 sp none q.0 q.1 bs b p.list few in
    let step = list_step st units align sp pages b r (rw p.head e) in
    elim (Bool-cases r.1) [
      | inl exact ↦ (r.0, step ∙ (rw exact))
      | inr other ↦
          let (r', e') = best_in_list_ends st units align pages r.0 h.1 in
          (r', step ∙ (rw (other, e')))
    ]

-- With well-formed pages on the list, the search of `best_fit` over pages and blocks ends with a
-- result.
pub best_fit_ends :
    (st : State) (list size align : ℕ)
    → ArePages st (st.lists list)
    → (r : BestSlob × Bool) × (best_fit st list size align ≡ some r)
unfolding best_fit
best_fit_ends st list size align h =
    let (b, e) = best_in_list_ends st (slob_units_of size) align (st.lists list) no_slob h in
    ((b, is_found b), rw (e, best_fit))
