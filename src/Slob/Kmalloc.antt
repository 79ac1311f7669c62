-- ===== src/Slob/Kmalloc.antt =====
-- `__kmalloc_node`, `kfree` and `ksize` of indwriterups/project4/slob.c. `align` is the larger of
-- ARCH_KMALLOC_MINALIGN and ARCH_SLAB_MINALIGN in bytes, an even number; a block starts with its
-- size, an `unsigned int` of two units.
pub mod RoundTrip
mod Tests
use cs.Common.{
  ℕ, ◌+◌, ◌-◌, ◌*◌, ◌/◌, ◌%◌, Bool, true, false, Option, none, some, ltb, ◌==◌, if◌then◌else◌,
  update,
}
use cs.Slob.Block.{Mem, slob_units_of}
use cs.Slob.Allocator.{SlobPage, State, Run, ok, bug, endless, slob_page, is_slob_page, with_page}
use cs.Slob.Allocator.Alloc.{slob_alloc}
use cs.Slob.Allocator.Free.{zero_or_null, slob_free}

-- `ZERO_SIZE_PTR`, the byte address 16
abbrev pub zero_size_ptr : ℕ
zero_size_ptr = 8

-- `*m = size` and `*m` for an `unsigned int` pointer
unfoldable pub write_size : Mem → (m size : ℕ) → Mem
write_size mem m size = update (update mem m (size % 65536)) (m + 1) (size / 65536 % 65536)

unfoldable pub read_size : Mem → (m : ℕ) → ℕ
read_size mem m = mem m + 65536 * mem (m + 1)

-- A block from `slob_alloc`: the size is written at its start.
unfoldable pub label_block : (align size : ℕ) → Run (State × Option ℕ) → Run (State × Option ℕ)
unfolding write_size
label_block align size (ok (st, some m)) =
    ok (record st { mem = write_size st.mem m size }, some (m + align / 2))
label_block align size (ok (st, none)) = ok (st, none)
label_block align size bug = bug
label_block align size endless = endless

-- A block of whole pages: the size is noted in the first page.
unfoldable pub big_block : State → (size : ℕ) → (pages : Option ℕ) → Run (State × Option ℕ)
big_block st size none = ok (st, none)
big_block st size (some sp) =
    let p = st.page sp in ok (with_page st sp (record p { private = size }), some (sp * 2048))

-- `__kmalloc_node`; `fresh` is the first page that `slob_new_pages` returns when it is called.
unfoldable pub kmalloc_node :
    (fuel : ℕ)
    → State
    → (align size : ℕ) → (zero_it : Bool) → (fresh : Option ℕ) → Run (State × Option ℕ)
unfolding label_block big_block
kmalloc_node fuel st align size zero_it fresh =
    if ltb size (4096 - align)
    then if size == 0
      then ok (st, some zero_size_ptr)
      else label_block align size (slob_alloc fuel st (size + align) align zero_it fresh)
    else big_block st size fresh

-- `kfree`: the new state, and the page that goes back to the page allocator.
unfoldable pub kfree : State → (align block : ℕ) → Run (State × Option ℕ)
unfolding read_size
kfree st align block =
    let sp = slob_page block in
    let m = block - align / 2 in
    if zero_or_null block
    then ok (st, none)
    else if is_slob_page st sp
    then slob_free st m (read_size st.mem m + align)
    else ok (st, some sp)

-- `ksize`
unfoldable pub ksize : State → (align block : ℕ) → Run ℕ
unfolding read_size
ksize st align block =
    let sp = slob_page block in
    if block == 0
    then bug
    else if block == zero_size_ptr
    then ok 0
    else if is_slob_page st sp
    then ok (slob_units_of (read_size st.mem (block - align / 2)) * 2)
    else ok (st.page sp).private
