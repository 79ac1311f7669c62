-- ===== src/Slob/Allocator/BestFit.antt =====
-- `best_fit` of indwriterups/project4/slob.c.
pub mod Ends
use cs.Common.{
  ℕ, zero, suc, ◌+◌, Bool, true, false, Option, none, some, List, [], ◌∷◌, ◌&&◌, ◌||◌, ltb, leb,
  ◌==◌, if◌then◌else◌,
}
use cs.Slob.Block.{Mem, slob_units_of, slob_units, slob_next, slob_last}
use cs.Slob.PageAlloc.{align_gap}
use cs.Slob.Allocator.{State}

-- `struct best_slob`; the null pointers of a fresh one are `none`.
pub record BestSlob : Type 0 where
  pub page : Option ℕ
  pub prev : Option ℕ
  pub slob : Option ℕ
  pub next : Option ℕ
  pub size : ℕ

-- The test of one block, and whether it ends the search at an exact fit (`goto break_out`).
pub better : (m : Mem) (units align sp : ℕ) (prev : Option ℕ) (cur : ℕ) → BestSlob → BestSlob × Bool
better m units align sp prev cur bs =
    let avail = slob_units m cur in
    let need = units + align_gap cur align in
    if leb need avail && (ltb avail bs.size || bs.size == 0)
    then (
      record {
        page = some sp;
        prev = prev;
        slob = some cur;
        next = some (slob_next m cur);
        size = avail;
      },
      avail == need,
    )
    else (bs, false)

-- The blocks of one page. `none` means that the fuel ran out.
pub best_in_page :
    (fuel : ℕ) (m : Mem) (units align sp : ℕ) (prev : Option ℕ) (cur : ℕ)
    → BestSlob
    → Option (BestSlob × Bool)
best_in_page zero m units align sp prev cur bs = none
best_in_page (suc fuel) m units align sp prev cur bs =
    let r = better m units align sp prev cur bs in
    let rest = best_in_page fuel m units align sp (some cur) (slob_next m cur) r.0 in
    if r.1 then some r else if slob_last m cur then some r else rest

-- The pages of a list; a page has 2048 units at most.
pub best_in_list : State → (units align : ℕ) → List ℕ → BestSlob → Option BestSlob
best_in_list st units align [] bs = some bs
best_in_list st units align (sp ∷ pages) bs =
    elim (best_in_page 2048 st.mem units align sp none (st.page sp).free bs) [
      | none ↦ none
      | some (bs', true) ↦ some bs'
      | some (bs', false) ↦ best_in_list st units align pages bs'
    ]

abbrev pub no_slob : BestSlob
no_slob = record { page = none; prev = none; slob = none; next = none; size = 0 }

-- `bs.slob` is not null.
abbrev pub is_found : BestSlob → Bool
is_found bs = elim bs.slob [ none ↦ false | some _ ↦ true ]

-- `best_fit`: the block found, and the result 1 or 0. The pointers that it was given are copies, so
-- the caller's are what they were.
unfoldable pub best_fit : State → (list size align : ℕ) → Option (BestSlob × Bool)
best_fit st list size align =
    elim (best_in_list st (slob_units_of size) align (st.lists list) no_slob) [
      | none ↦ none
      | some bs ↦ some (bs, is_found bs)
    ]
