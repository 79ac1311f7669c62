-- ===== src/Slob/PageAlloc.antt =====
-- Allocation within one page: the search loop of `slob_page_alloc` in indwriterups/project4/slob.c
-- (the page's counter and lists are kept by Slob.Allocator).
pub mod Fit
pub mod Split
pub mod Refine
pub mod Total
use cs.Common.{
  ℕ, zero, suc, ◌+◌, ◌-◌, ◌*◌, ◌/◌, Bool, Option, none, some, ltb, leb, ◌==◌, if◌then◌else◌,
}
use cs.Slob.Block.{Mem, set_slob, slob_units, slob_next, slob_last}

-- `(slob_t *)ALIGN((unsigned long)cur, align)` in units, for the byte address `2 * cur`. `ALIGN`
-- rounds up to a multiple of `align`, a power of two.
unfoldable pub align_up : (cur align : ℕ) → ℕ
align_up cur align = (2 * cur + align - 1) / align * align / 2

-- `delta`, 0 if there is no alignment
unfoldable pub align_gap : (cur align : ℕ) → ℕ
unfolding align_up
align_gap cur align = if align == 0 then 0 else align_up cur align - cur

-- The memory, the page's `free` field and the block that is returned.
pub record Carved : Type 0 where
  pub mem : Mem
  pub free : ℕ
  pub block : ℕ

-- The variables of the search that the branch "need to fragment head to align?" changes.
pub record Cursor : Type 0 where
  pub mem : Mem
  pub prev : Option ℕ
  pub cur : ℕ
  pub avail : ℕ

-- if (delta) { ... }
unfoldable pub fragment_head : Cursor → (delta : ℕ) → Cursor
fragment_head c delta =
    let aligned = c.cur + delta in
    let following = slob_next c.mem c.cur in
    let m = set_slob (set_slob c.mem aligned (c.avail - delta) following) c.cur delta aligned in
    if delta == 0
    then c
    else record { mem = m; prev = some c.cur; cur = aligned; avail = slob_units m aligned }

-- `set_slob(prev, slob_units(prev), next)`, or `sp->free = next` without a `prev`
unfoldable pub relink : Mem → (free : ℕ) → (prev : Option ℕ) → (following : ℕ) → Mem × ℕ
relink m free (some p) following = (set_slob m p (slob_units m p) following, free)
relink m free none following = (m, following)

-- exact fit: unlink; otherwise fragment
unfoldable pub unlink : Cursor → (free units : ℕ) → Carved
unfolding relink
unlink c free units =
    let following = slob_next c.mem c.cur in
    if c.avail == units
    then (let r = relink c.mem free c.prev following in
        record { mem = r.0; free = r.1; block = c.cur })
    else (let r = relink c.mem free c.prev (c.cur + units) in
        record {
          mem = set_slob r.0 (c.cur + units) (c.avail - units) following;
          free = r.1;
          block = c.cur;
        })

-- The `for` loop. The outer `none` means that the fuel ran out, `some none` is `NULL`.
unfoldable pub page_search :
    (fuel : ℕ)
    → Mem
    → (free units align : ℕ) → (prev : Option ℕ) → (cur : ℕ) → Option (Option Carved)
unfolding align_gap fragment_head unlink
page_search zero m free units align prev cur = none
page_search (suc fuel) m free units align prev cur =
    let avail = slob_units m cur in
    let delta = align_gap cur align in
    let at : Cursor = record { mem = m; prev = prev; cur = cur; avail = avail } in
    let rest = page_search fuel m free units align (some cur) (slob_next m cur) in
    if leb (units + delta) avail
    then some (some (unlink (fragment_head at delta) free units))
    else if slob_last m cur
    then some none
    else rest
