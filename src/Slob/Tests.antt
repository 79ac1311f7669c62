-- ===== src/Slob/Tests.antt =====
-- The allocator on concrete pages.
use cs.Common.{
  ℕ, ◌+◌, ◌*◌, ◌≤◌, ◌<◌, ◌≡◌, ◌⊎◌, inl, inr, refl, true, false, none, some, List, [], ◌∷◌, arith,
  update,
}
use cs.Slob.Block.{Mem, slob_units_of, set_slob}
use cs.Slob.Block.FreeList.{
  Block, FreeList, FreeList-frame, set_slob-IsBlock, set_slob-frame, total,
}
use cs.Slob.PageAlloc.{align_gap, align_up}
use cs.Slob.PageAlloc.Fit.{fit}
use cs.Slob.PageFree.Insert.{insert_free}
use cs.Slob.Allocator.{State, SlobPage, ok, size_class, slob_page_alloc}
use cs.Slob.Allocator.Page.{IsPage, Taken, slob_page_alloc_lem}
use cs.Slob.Allocator.BestFit.Ends.{ArePages}
use cs.Slob.Allocator.Alloc.{new_page, slob_alloc, zeroed}
use cs.Slob.Allocator.Alloc.FreshPage.{slob_alloc-new_page}
use cs.Slob.Allocator.Free.{release_page, slob_free}
use cs.Slob.Allocator.Free.Page.{InPage, Given, slob_free_lem}

-- Page 1 with the free blocks of 4 units at 2050 and of 6 units at 2060.
abbrev blank : Mem
blank = λ _. 0

abbrev two_mem : Mem
two_mem = set_slob (set_slob blank 2060 6 4096) 2050 4 2060

abbrev two_blocks : List Block
two_blocks = (2050, 4) ∷ (2060, 6) ∷ []

two_FreeList : FreeList two_mem 1 two_blocks
two_FreeList =
    let m1 = set_slob blank 2060 6 4096 in
    let last : FreeList m1 1 ((2060, 6) ∷ []) = (
      set_slob-IsBlock blank 1 2060 6 4096 (omega arith) (omega arith) (omega arith) (omega arith),
      tt,
    ) in
    (
      set_slob-IsBlock m1 1 2050 4 2060 (omega arith) (omega arith) (omega arith) (omega arith),
      FreeList-frame m1 two_mem 1 ((2060, 6) ∷ []) last (λ y lo _.
          set_slob-frame m1 2050 4 2060 y (omega arith) (omega arith) (inr (omega arith))),
    )

abbrev no_page : SlobPage
no_page = record { slab = false; slob_free = false; units = 0; free = 0; private = 0 }

abbrev two_state : State
two_state = record {
  mem = two_mem;
  page =
      update (λ _. no_page) 1
        (record { slab = true; slob_free = true; units = 10; free = 2050; private = 0 });
  lists = update (λ _. []) 3 (1 ∷ []);
}

two_IsPage : IsPage two_state 1 two_blocks
two_IsPage = record { list = two_FreeList; head = refl; count = refl }

two_ArePages : ArePages two_state (two_state.lists (size_class 24))
unfolding size_class
two_ArePages = (((2050, 4), (2060, 6) ∷ [], two_IsPage), tt)

slob_page_alloc_lem_example :
    ((fit (slob_units_of 10) 0 two_blocks ≡ none)
      × (slob_page_alloc two_state 1 10 0 none none ≡ ok (two_state, none)))
    ⊎ ((x : ℕ) × (bs' : List Block) × (st' : State) × (fit (slob_units_of 10) 0 two_blocks
          ≡ some (x, bs'))
        × (slob_page_alloc two_state 1 10 0 none none ≡ ok (st', some x))
        × Taken two_state 1 two_blocks bs' st')
slob_page_alloc_lem_example =
    slob_page_alloc_lem two_state 1 10 0 (2050, 4) ((2060, 6) ∷ []) two_IsPage (omega arith)

in_page : (size : ℕ) → slob_units_of size ≤ 4 → 0 < size → InPage 1 2056 size
in_page size le pos = record {
  real = omega arith;
  sized = pos;
  low = omega arith;
  high = omega (arith, le);
}

four : slob_units_of 8 ≡ 4
unfolding slob_units_of
four = refl

slob_free_lem_example :
    ((total two_blocks + slob_units_of 8 ≡ 2048)
      × (slob_free two_state 2056 8 ≡ ok (release_page two_state 1, some 1)))
    ⊎ ((total two_blocks + slob_units_of 8 < 2048)
        × (st' : State) × (slob_free two_state 2056 8 ≡ ok (st', none))
        × (st'.lists ≡ two_state.lists)
        × Given two_state 1 2056
            (slob_units_of 8)
            two_blocks
            (insert_free (2056, slob_units_of 8) two_blocks)
            st')
slob_free_lem_example =
    slob_free_lem two_state 1 2056 8 (2050, 4) ((2060, 6) ∷ []) two_IsPage refl
      (in_page 8 (omega (arith, four)) (omega arith))
      (inr (omega arith), (inl (omega (arith, four)), tt))

-- A full page.
abbrev full_state : State
full_state = record {
  mem = blank;
  page =
      update (λ _. no_page) 1
        (record { slab = true; slob_free = false; units = 0; free = 0; private = 0 });
  lists = λ _. [];
}

slob_alloc-new_page_example :
    (slob_alloc 5 two_state 24 0 false (some 7)
      ≡ zeroed false 24 (new_page two_state (size_class 24) 24 0 (some 7)))
    × (slob_alloc 5 two_state 24 0 false none ≡ ok (two_state, none))
slob_alloc-new_page_example = slob_alloc-new_page 5 two_state 24 0 false (some 7) two_ArePages

aligned : slob_units_of 24 + align_gap (7 * 2048) 8 ≤ 2048
unfolding slob_units_of align_gap align_up
aligned = omega arith
