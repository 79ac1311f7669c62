-- ===== src/Slob/PageFree.antt =====
-- Freeing into a page that has free blocks: the end of `slob_free` in indwriterups/project4/slob.c,
-- from "find reinsertion point" on (the page's counter and lists are kept by Slob.Allocator).
pub mod Insert
pub mod Writes
pub mod Refine
use cs.Common.{ℕ, zero, suc, ◌+◌, Option, none, some, ◌&&◌, not, ltb, ◌==◌, if◌then◌else◌}
use cs.Slob.Block.{Mem, set_slob, slob_units, slob_next, slob_last}

-- The memory and the page's `free` field.
pub record Freed : Type 0 where
  pub mem : Mem
  pub free : ℕ

-- b < sp->free
pub free_front : Mem → (free b units : ℕ) → Freed
free_front m free b units =
    if b + units == free
    then record { mem = set_slob m b (units + slob_units m free) (slob_next m free); free = b }
    else record { mem = set_slob m b units free; free = b }

-- while (b > next): the last free block below `b`; `none` means that the fuel ran out.
pub find_prev : (fuel : ℕ) → Mem → (b prev : ℕ) → Option ℕ
find_prev zero m b prev = none
find_prev (suc fuel) m b prev =
    let following = slob_next m prev in
    let rest = find_prev fuel m b following in if ltb following b then rest else some prev

-- `set_slob(prev, ...)`: the block `b` is joined to `prev`, or linked to from there.
pub link_prev : Mem → (prev b : ℕ) → Mem
link_prev m prev b =
    if prev + slob_units m prev == b
    then set_slob m prev (slob_units m b + slob_units m prev) (slob_next m b)
    else set_slob m prev (slob_units m prev) b

-- The two writes behind the loop.
pub free_between : Mem → (b units prev : ℕ) → Mem
free_between m b units prev =
    let following = slob_next m prev in
    let m1 =
      if not (slob_last m prev) && b + units == following
      then set_slob m b (units + slob_units m following) (slob_next m following)
      else set_slob m b units following in
    link_prev m1 prev b

unfoldable pub page_free : (fuel : ℕ) → Mem → (free b units : ℕ) → Option Freed
unfolding free_front find_prev free_between
page_free fuel m free b units =
    if ltb b free then some (free_front m free b units) else elim (find_prev fuel m b free) [
      | none ↦ none
      | some prev ↦ some (record { mem = free_between m b units prev; free = free })
    ]
