-- ===== src/Slob/Fragmentation.antt =====
-- `get_fragmentation` of indwriterups/project4/slob.c. What follows the loop over the pages of a
-- list runs once for each list, not for each page.
mod Totals
mod Tests
use cs.Common.{
  ℕ, zero, suc, ◌+◌, ◌*◌, ◌/◌, Bool, Option, none, some, List, [], ◌∷◌, ltb, if◌then◌else◌,
}
use cs.Slob.Block.{Mem, slob_units, slob_next, slob_last}
use cs.Slob.Allocator.{State}

-- `page_total` and `page_free`
pub record Page : Type 0 where
  pub total : ℕ
  pub max : ℕ

-- `pages`, `free_total` and `free_max`
pub record Tally : Type 0 where
  pub pages : ℕ
  pub free_total : ℕ
  pub free_max : ℕ

-- A block of `n` units is counted.
abbrev pub count_block : Page → ℕ → Page
count_block p n = record { total = p.total + n; max = if ltb p.max n then n else p.max }

-- The loop over the blocks of a page. `none` means that the fuel ran out.
unfoldable pub over_blocks : (fuel : ℕ) → Mem → (cur : ℕ) → Page → Option Page
over_blocks zero m cur p = none
over_blocks (suc fuel) m cur p =
    let p' = count_block p (slob_units m cur) in
    let rest = over_blocks fuel m (slob_next m cur) p' in if slob_last m cur then some p' else rest

-- The loop over the pages of a list; the numbers of an empty list are those left from before.
unfoldable pub over_pages : State → List ℕ → Page → Option Page
over_pages st [] p = some p
over_pages st (sp ∷ pages) p =
    elim (over_blocks 2048 st.mem (st.page sp).free (record { total = 0; max = 0 })) [
      | none ↦ none
      | some p' ↦ over_pages st pages p'
    ]

-- The loop over `n` lists from the list `i` on.
unfoldable pub over_lists : State → (n i : ℕ) → Page → Tally → Option Tally
over_lists st zero i p t = some t
over_lists st (suc n) i p t = elim (over_pages st (st.lists i) p) [
  | none ↦ none
  | some p' ↦ over_lists st n (i + 1) p' (record {
    pages = t.pages + 1;
    free_total = t.free_total + p'.total;
    free_max = t.free_max + p'.max;
  })
]

-- `get_fragmentation`; `sizeof(slobidx_t)` is 2.
unfoldable pub get_fragmentation : State → (which : Bool) → Option ℕ
get_fragmentation st which =
    elim (over_lists st 11 0 (record { total = 0; max = 0 })
      (record { pages = 0; free_total = 0; free_max = 0 })) [
        | none ↦ none
        | some t ↦ some ((if which then t.free_total else t.free_max) * 2 / t.pages)
      ]
