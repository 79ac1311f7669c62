-- ===== src/Slob/Allocator/Free/Page.antt =====
-- What `slob_free` does to a page and its free list, on each branch.
use cs.Common.{
  ℕ, ◌+◌, ◌*◌, ◌/◌, ◌%◌, ◌≤◌, ◌<◌, ◌≡◌, ◌⊎◌, inl, inr, refl, true, false, none, some, List, [], ◌∷◌,
  arith, leb, ◌==◌, Bool-cases, length, update,
}
use cs.Slob.Block.{Mem, page_units, slob_units_of}
use cs.Slob.Block.FreeList.{
  Block, start, FreeList, Outside, Beside, FreeList-length, set_slob-IsBlock, set_slob-frame, total,
}
use cs.Slob.PageFree.{Freed, page_free}
use cs.Slob.PageFree.Insert.{insert_free}
use cs.Slob.PageFree.Refine.{Disjoint, page_free-Refines}
use cs.Slob.Allocator.{State, ok, slob_page_free, slob_page, set_slob_page_free, size_class}
use cs.Slob.Allocator.Page.{slob_units_of-pos, IsPage, total-le, start-low}
use cs.Slob.Allocator.Free.{sum_is, release_page, first_free, more_free, slob_free}
use cs.Slob.Allocator.Free.Insert.{total-insert_free}

-- The block of `size` bytes at `b` lies in the page `sp`, behind the null addresses.
pub record InPage (sp b size : ℕ) : Type 0 where
  pub real : 8 < b
  pub sized : 0 < size
  pub low : sp * 2048 ≤ b
  pub high : b + slob_units_of size ≤ sp * 2048 + 2048

module _ (st : State) (sp b size : ℕ) (i : InPage sp b size) where
  page_of : slob_page b ≡ sp
  page_of = omega (arith, i.low, i.high, slob_units_of-pos size i.sized)

  units_small : slob_units_of size % 65536 ≡ slob_units_of size
  units_small = omega (arith, i.low, i.high)

  is_real : leb b 8 ≡ false
  is_real = ground (arith, i.real)

  is_sized : (size == 0) ≡ false
  is_sized = ground (arith, i.sized)

  units_fit : slob_units_of size ≤ 2048
  units_fit = omega (arith, i.low, i.high)

  pub run_release :
      (st.page sp).units + slob_units_of size ≡ 2048
      → slob_free st b size ≡ ok (release_page st sp, some sp)
  unfolding slob_free
  run_release full =
      let sum : sum_is (st.page sp).units (slob_units_of size) page_units ≡ true =
        ground (arith, full, units_fit) in
      rw (is_real, is_sized, page_of, units_small, sum) refl

  run_more :
      (st' : State)
      → (st.page sp).units + slob_units_of size < 2048
      → slob_page_free st sp ≡ true
      → more_free st sp b (slob_units_of size) ≡ ok st'
      → slob_free st b size ≡ ok (st', none)
  unfolding slob_free
  run_more st' few partly e =
      let sum : sum_is (st.page sp).units (slob_units_of size) page_units ≡ false =
        ground (arith, few) in
      rw (is_real, is_sized, page_of, units_small, sum, partly, e) refl

  run_first :
      (st.page sp).units + slob_units_of size < 2048
      → slob_page_free st sp ≡ false
      → slob_free st b size ≡ ok (first_free st sp b (slob_units_of size) size, none)
  unfolding slob_free
  run_first few full =
      let sum : sum_is (st.page sp).units (slob_units_of size) page_units ≡ false =
        ground (arith, few) in
      rw (is_real, is_sized, page_of, units_small, sum, full) refl

-- A block in a page beside the free blocks, and the free blocks, fit into the page.
Disjoint-total :
    (m : Mem) (k b u lo : ℕ) (bs : List Block)
    → FreeList m k bs
    → Disjoint b u bs
    → b + u ≤ k * 2048 + 2048
    → lo ≤ b
    → lo ≤ start k bs
    → total bs + u + lo ≤ k * 2048 + 2048
Disjoint-total m k b u lo [] f apart high le le' = omega arith
Disjoint-total m k b u lo ((a, n) ∷ bs) f apart high le le' = elim apart.0 [
  | inl above ↦ omega (arith, total-le m k ((a, n) ∷ bs) f, above)
  | inr below ↦ omega (arith, Disjoint-total m k b u (a + n) bs f.1 apart.1 high below f.0.room)
]

-- The page holds the free list `bs'`, is flagged as partially free, and the lists, other pages and units beside the block of
-- `u` units at `b` and the old list `bs` stay.
pub record Given (st : State) (sp b u : ℕ) (bs bs' : List Block) (st' : State) : Type 0 where
  pub page : IsPage st' sp bs'
  pub slab : (st'.page sp).slab ≡ (st.page sp).slab
  pub flag : slob_page_free st' sp ≡ true
  pub others : (i : ℕ) → (i == sp) ≡ false → st'.page i ≡ st.page i
  pub frame : (y : ℕ) → Beside y b u → Outside y bs → st'.mem y ≡ st.mem y

more_free-run :
    (st : State) (sp b u cur : ℕ) (r : Freed)
    → (st.page sp).free ≡ cur
    → page_free 2048 st.mem cur b u ≡ some r
    → more_free st sp b u
      ≡ ok (record st {
        mem = r.mem;
        page =
            update st.page sp
              (record (st.page sp) { units = ((st.page sp).units + u) % 65536; free = r.free });
      })
unfolding more_free
more_free-run st sp b u cur r at run = ground arith

more_free-Given :
    (st : State) (sp b u : ℕ) (q : Block) (bs : List Block)
    → IsPage st sp (q ∷ bs)
    → sp * 2048 ≤ b
    → 0 < u
    → b + u ≤ sp * 2048 + 2048
    → Disjoint b u (q ∷ bs)
    → total (q ∷ bs) + u < 2048
    → slob_page_free st sp ≡ true
    → (st' : State) × (more_free st sp b u ≡ ok st')
      × (st'.lists ≡ st.lists)
      × Given st sp b u (q ∷ bs) (insert_free (b, u) (q ∷ bs)) st'
unfolding more_free
more_free-Given st sp b u q bs p low pos high apart few partly =
    let short : length bs < 2048 =
      omega
        (arith, FreeList-length st.mem sp bs p.list.1, p.list.0.room, p.list.0.low, p.list.0.pos) in
    let (r, run, at, list, frame) =
      page_free-Refines 2048 st.mem sp b u q bs p.list low pos high apart short in
    let p0 = st.page sp in
    let st' : State = record st {
      mem = r.mem;
      page = update st.page sp (record p0 { units = (p0.units + u) % 65536; free = r.free });
    } in
    (
      st',
      more_free-run st sp b u q.0 r p.head run,
      refl,
      record {
        page = record {
          list = list;
          head = ground (arith, at);
          count = ground (arith, p.count, few, total-insert_free (b, u) (q ∷ bs));
        };
        slab = ground arith;
        flag = ground (arith, partly);
        others = λ i ne. ground arith;
        frame = frame;
      },
    )

-- Freeing a block of a page that has free blocks ends. If all units of the page are then free,
-- the page leaves its list and goes back to the page allocator. Otherwise the free list in memory
-- is the old one with the block inserted at its address and joined to its neighbours, the `free`
-- field, the counter and the flag agree with it, and lists, other pages and other units stay.
pub slob_free_lem :
    (st : State) (sp b size : ℕ) (q : Block) (bs : List Block)
    → IsPage st sp (q ∷ bs)
    → slob_page_free st sp ≡ true
    → InPage sp b size
    → Disjoint b (slob_units_of size) (q ∷ bs)
    → ((total (q ∷ bs) + slob_units_of size ≡ 2048)
        × (slob_free st b size ≡ ok (release_page st sp, some sp)))
      ⊎ ((total (q ∷ bs) + slob_units_of size < 2048)
          × (st' : State) × (slob_free st b size ≡ ok (st', none))
          × (st'.lists ≡ st.lists)
          × Given st sp b
              (slob_units_of size)
              (q ∷ bs)
              (insert_free (b, slob_units_of size) (q ∷ bs))
              st')
slob_free_lem st sp b size q bs p partly i apart =
    let u = slob_units_of size in
    let most : total (q ∷ bs) + u ≤ 2048 = omega (
      arith,
      Disjoint-total st.mem sp b u (sp * 2048) (q ∷ bs) p.list apart i.high i.low
          (start-low st.mem sp (q ∷ bs) p.list),
    ) in
    elim (Bool-cases (total (q ∷ bs) + u == 2048)) [
      | inl full ↦
          let e : total (q ∷ bs) + u ≡ 2048 = ground arith in
          inl (e, run_release st sp b size i (rw p.count e))
      | inr less ↦
          let few : total (q ∷ bs) + u < 2048 = ground arith in
          let (st', run, lists, given) =
            more_free-Given st sp b u q bs p i.low (slob_units_of-pos size i.sized) i.high apart few
              partly in
          inr (few, st', run_more st sp b size i st' (rw p.count few) partly run, lists, given)
    ]

-- Freeing a block of a page that has no free block: the block is the page's free list, and the
-- page is flagged and put first on the list for the block's size; the other lists, other pages and
-- units outside the block stay.
pub slob_free-first :
    (st : State) (sp b size : ℕ)
    → (st.page sp).units ≡ 0
    → slob_page_free st sp ≡ false
    → InPage sp b size
    → slob_units_of size < 2048
    → (st' : State) × (slob_free st b size ≡ ok (st', none))
      × (slob_page_free st' sp ≡ true)
      × (st'.lists (size_class size) ≡ sp ∷ st.lists (size_class size))
      × ((l : ℕ) → (l == size_class size) ≡ false → st'.lists l ≡ st.lists l)
      × Given st sp b (slob_units_of size) [] ((b, slob_units_of size) ∷ []) st'
unfolding first_free set_slob_page_free
slob_free-first st sp b size none_left full i few =
    let u = slob_units_of size in
    let pos = slob_units_of-pos size i.sized in
    let top : (b + page_units) / 2048 * 2048 ≡ sp * 2048 + 2048 =
      omega (arith, i.low, i.high, pos) in
    (
      first_free st sp b u size,
      run_first st sp b size i (omega (arith, none_left, few)) full,
      ground arith,
      ground arith,
      λ l ne. ground arith,
      record {
        page = record {
          list = rw top (
            set_slob-IsBlock st.mem sp b u (sp * 2048 + 2048) i.low pos i.high (omega arith),
            tt,
          );
          head = ground arith;
          count = ground arith;
        };
        slab = ground arith;
        flag = ground arith;
        others = λ j ne. ground arith;
        frame = λ y beside _.
            set_slob-frame st.mem b u ((b + page_units) / 2048 * 2048) y pos (omega arith) beside;
      },
    )
