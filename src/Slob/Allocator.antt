-- ===== src/Slob/Allocator.antt =====
-- The state of the allocator and its entry points, indwriterups/project4/slob.c: pages, the eleven
-- lists of partially free pages, `best_fit`, `slob_page_alloc`, `slob_alloc`, `slob_free`.
pub mod Page
pub mod BestFit
pub mod Alloc
pub mod Free
use cs.Common.{
  ℕ, ◌+◌, ◌-◌, ◌/◌, ◌%◌, Bool, true, false, Option, none, some, List, [], ◌∷◌, ltb, leb, ◌==◌,
  if◌then◌else◌, update,
}
use cs.Slob.Block.{Mem, page_units, slob_units_of}
use cs.Slob.PageAlloc.{Carved, page_search}

-- `struct slob_page`, and what the page allocator's flags say: `units` is the pattern of an `s16`,
-- `free` an address, `private` the size that `kmalloc` notes in a page of its own.
pub record SlobPage : Type 0 where
  pub slab : Bool
  pub slob_free : Bool
  pub units : ℕ
  pub free : ℕ
  pub private : ℕ

-- Memory, pages by number (address / 2048), and the lists of free pages by size class.
pub record State : Type 0 where
  pub mem : Mem
  pub page : ℕ → SlobPage
  pub lists : ℕ → List ℕ

-- A run of a function: a result, a stop at `BUG_ON` or `panic`, or a loop that outlives its fuel.
pub data Run (A : Type 0) : Type 0 where
  ok : A → Run A
  bug : Run A
  endless : Run A

-- `slob_page`
abbrev pub slob_page : ℕ → ℕ
slob_page addr = addr / 2048

-- `is_slob_page`, `set_slob_page`, `clear_slob_page`, `slob_page_free`
abbrev pub is_slob_page : State → ℕ → Bool
is_slob_page st sp = (st.page sp).slab

abbrev pub with_page : State → ℕ → SlobPage → State
with_page st sp p = record st { page = update st.page sp p }

abbrev pub set_slab : Bool → State → ℕ → State
set_slab b st sp = let p = st.page sp in with_page st sp (record p { slab = b })

abbrev pub slob_page_free : State → ℕ → Bool
slob_page_free st sp = (st.page sp).slob_free

-- `list_del`: out of the list that holds the page
unfoldable pub without : ℕ → List ℕ → List ℕ
without sp [] = []
without sp (x ∷ xs) = if x == sp then xs else x ∷ without sp xs

-- `set_slob_page_free` puts the page first on a list.
unfoldable pub set_slob_page_free : State → (sp list : ℕ) → State
set_slob_page_free st sp list =
    let p = st.page sp in
    record st {
      page = update st.page sp (record p { slob_free = true });
      lists = update st.lists list (sp ∷ st.lists list);
    }

unfoldable pub clear_slob_page_free : State → (sp : ℕ) → State
unfolding without
clear_slob_page_free st sp =
    let p = st.page sp in
    record st {
      page = update st.page sp (record p { slob_free = false });
      lists = λ i. without sp (st.lists i);
    }

-- The list for a size, `SLOB_BREAK0` to `SLOB_BREAK9`: 0 is `free_slob_reallydamnsmall`, 10 is
-- `free_slob_giga`.
unfoldable pub size_class : ℕ → ℕ
size_class size =
    if ltb size 4
    then 0
    else if ltb size 8
    then 1
    else if ltb size 16
    then 2
    else if ltb size 32
    then 3
    else if ltb size 64
    then 4
    else if ltb size 128
    then 5
    else if ltb size 256
    then 6
    else if ltb size 512
    then 7
    else if ltb size 1024
    then 8
    else if ltb size 2048
    then 9
    else 10

-- `a - b` on `s16` patterns
unfoldable pub sub16 : ℕ → ℕ → ℕ
sub16 a b = (a + 65536 - b % 65536) % 65536

-- What `slob_page_alloc` does with the block found: `sp->free`, `sp->units -= units`, and the page
-- leaves its list when no unit is left.
unfoldable pub take_units : State → (sp units : ℕ) → Carved → State
unfolding clear_slob_page_free
take_units st sp units c =
    let p = st.page sp in
    let left = sub16 p.units units in
    let st1 : State = record st {
      mem = c.mem;
      page = update st.page sp (record p { free = c.free; units = left });
    } in
    if left == 0 then clear_slob_page_free st1 sp else st1

-- `slob_page_alloc`; a page has 2048 units, so no search passes more blocks.
unfoldable pub slob_page_alloc :
    State → (sp size align : ℕ) → (best prev : Option ℕ) → Run (State × Option ℕ)
unfolding take_units
slob_page_alloc st sp size align best prev =
    let units = slob_units_of size in
    let cur : ℕ = elim best [ none ↦ (st.page sp).free | some b ↦ b ] in
    elim (page_search 2048 st.mem (st.page sp).free units align prev cur) [
      | none ↦ endless
      | some none ↦ ok (st, none)
      | some (some c) ↦ ok (take_units st sp units c, some c.block)
    ]
