-- ===== src/Slob/Fragmentation/Tests.antt =====
-- `get_fragmentation` on an allocator with one page.
use cs.Common.{
  ℕ, ◌*◌, ◌/◌, ◌≡◌, refl, true, some, [], ◌∷◌, arith, ◌==◌, Bool-cases, update, inl, inr,
}
use cs.Slob.Block.{set_slob}
use cs.Slob.Block.FreeList.{set_slob-IsBlock}
use cs.Slob.Allocator.{State}
use cs.Slob.Allocator.Page.{IsPage}
use cs.Slob.Allocator.BestFit.Ends.{ArePages}
use cs.Slob.Fragmentation.{get_fragmentation}
use cs.Slob.Fragmentation.Totals.{sum_last, get_fragmentation_lem}

abbrev one_state : State
one_state = record {
  mem = set_slob (λ _. 0) 2060 6 4096;
  page = λ _. record { slab = true; slob_free = true; units = 6; free = 2060; private = 0 };
  lists = update (λ _. []) 3 (1 ∷ []);
}

one_IsPage : IsPage one_state 1 ((2060, 6) ∷ [])
one_IsPage = record {
  list = (
    set_slob-IsBlock (λ _. 0) 1 2060 6 4096 (omega arith) (omega arith) (omega arith) (omega arith),
    tt,
  );
  head = refl;
  count = refl;
}

one_ArePages : (l : ℕ) → ArePages one_state (one_state.lists l)
one_ArePages l = elim (Bool-cases (l == 3)) [
  | inl here ↦ rw here (((2060, 6), [], one_IsPage), tt)
  | inr other ↦ rw other tt
]

get_fragmentation_lem_example :
    get_fragmentation one_state true ≡ some (sum_last one_state 11 0 0 * 2 / 11)
get_fragmentation_lem_example = get_fragmentation_lem one_state one_ArePages
