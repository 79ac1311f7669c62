-- ===== src/Slob/Allocator/Free.antt =====
-- `slob_free` of indwriterups/project4/slob.c.
pub mod Insert
pub mod Page
use cs.Common.{
  ℕ, ◌+◌, ◌*◌, ◌/◌, ◌%◌, Bool, true, false, Option, none, some, leb, ◌==◌, if◌then◌else◌, update,
}
use cs.Slob.Block.{Mem, page_units, slob_units_of, set_slob}
use cs.Slob.PageFree.{Freed, page_free}
use cs.Slob.Allocator.{
  SlobPage, State, Run, ok, bug, endless, slob_page, slob_page_free, set_slab, set_slob_page_free,
  clear_slob_page_free, size_class,
}

-- `ZERO_OR_NULL_PTR`: at most `ZERO_SIZE_PTR`, the byte address 16
abbrev pub zero_or_null : ℕ → Bool
zero_or_null addr = leb addr 8

-- The sum of two `s16` patterns is the number `n`.
abbrev sum_is : ℕ → ℕ → ℕ → Bool
sum_is u v n = (u + 32768) % 65536 + (v + 32768) % 65536 == n + 65536

-- "Go directly to page allocator": the page leaves its list and is returned.
unfoldable pub release_page : State → (sp : ℕ) → State
release_page st sp =
    let st1 = if slob_page_free st sp then clear_slob_page_free st sp else st in
    set_slab false st1 sp

-- "This slob page is about to become partially free."
unfoldable pub first_free : State → (sp b units size : ℕ) → State
first_free st sp b units size =
    let p = st.page sp in
    let st1 : State = record st {
      mem = set_slob st.mem b units ((b + page_units) / 2048 * 2048);
      page = update st.page sp (record p { units = units; free = b });
    } in
    set_slob_page_free st1 sp (size_class size)

-- `sp->units += units`, and the insertion; a page has 2048 units, so the walk passes fewer blocks.
unfoldable pub more_free : State → (sp b units : ℕ) → Run State
more_free st sp b units =
    let p = st.page sp in
    elim (page_free 2048 st.mem p.free b units) [
      | none ↦ endless
      | some r ↦ ok (record st {
        mem = r.mem;
        page = update st.page sp (record p { units = (p.units + units) % 65536; free = r.free });
      })
    ]

-- `slob_free`: the new state, and the page handed to `slob_free_pages`.
unfoldable pub slob_free : State → (block size : ℕ) → Run (State × Option ℕ)
slob_free st block size =
    let sp = slob_page block in
    let units = slob_units_of size % 65536 in
    if zero_or_null block
    then ok (st, none)
    else if size == 0
    then bug
    else if sum_is (st.page sp).units units page_units
    then ok (release_page st sp, some sp)
    else if slob_page_free st sp
    then elim (more_free st sp block units) [
      | ok st' ↦ ok (st', none)
      | bug ↦ bug
      | endless ↦ endless
    ]
    else ok (first_free st sp block units size, none)
