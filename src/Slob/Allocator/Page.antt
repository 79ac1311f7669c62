-- ===== src/Slob/Allocator/Page.antt =====
-- A page of the allocator and the free list in its memory, and `slob_page_alloc` on it.
use mathlib.Core.Path.{subst, ◌∙◌}
use cs.Common.{
  ℕ, ◌+◌, ◌*◌, ◌≤◌, ◌<◌, ◌≡◌, ◌⊎◌, inl, inr, false, none, some, List, [], ◌∷◌, arith, ◌==◌,
  if◌then◌else◌, Option-cases, length,
}
use cs.Slob.Block.{Mem, slob_units_of}
use cs.Slob.Block.FreeList.{Block, start, FreeList, Outside, FreeList-length, total}
use cs.Slob.PageAlloc.{Carved, page_search}
use cs.Slob.PageAlloc.Fit.{fit}
use cs.Slob.PageAlloc.Refine.{Refines, page_search-Refines}
use cs.Slob.PageAlloc.Total.{total-fit}
use cs.Slob.Allocator.{
  State, ok, sub16, clear_slob_page_free, slob_page_free, take_units, slob_page_alloc,
}

-- The free list of a page is `bs`: in memory, by its `free` field, and by its counter.
pub record IsPage (st : State) (sp : ℕ) (bs : List Block) : Type 0 where
  pub list : FreeList st.mem sp bs
  pub head : (st.page sp).free ≡ start sp bs
  pub count : (st.page sp).units ≡ total bs

pub total-le :
    (m : Mem) (k : ℕ) (bs : List Block) → FreeList m k bs → total bs + start k bs ≤ k * 2048 + 2048
total-le m k [] f = omega arith
total-le m k ((a, n) ∷ bs) f = omega (arith, total-le m k bs f.1, f.0.room)

pub start-low : (m : Mem) (k : ℕ) (bs : List Block) → FreeList m k bs → k * 2048 ≤ start k bs
start-low m k [] f = omega arith
start-low m k ((a, n) ∷ bs) f = f.0.low

pub slob_units_of-pos : (size : ℕ) → 0 < size → 0 < slob_units_of size
unfolding slob_units_of
slob_units_of-pos size h = omega arith

nonzero : (n : ℕ) → 0 < n → (n == 0) ≡ false
nonzero n h = ground arith

-- What an allocation of `units` units changes: the page holds `bs'`, and it leaves its list
-- exactly if nothing is left.
pub record Taken (st : State) (sp : ℕ) (bs bs' : List Block) (st' : State) : Type 0 where
  pub page : IsPage st' sp bs'
  pub emptied : total bs' ≡ 0 → st'.lists ≡ (clear_slob_page_free st sp).lists
  pub kept : 0 < total bs' → st'.lists ≡ st.lists
  pub others : (i : ℕ) → (i == sp) ≡ false → st'.page i ≡ st.page i
  pub slab : (st'.page sp).slab ≡ (st.page sp).slab
  pub flag : slob_page_free st' sp ≡ (if total bs' == 0 then false else slob_page_free st sp)
  pub frame : (y : ℕ) → Outside y bs → st'.mem y ≡ st.mem y

slab-take_units :
    (st : State) (sp units : ℕ) (c : Carved)
    → ((take_units st sp units c).page sp).slab ≡ (st.page sp).slab
unfolding take_units
slab-take_units st sp units c = ground arith

flag-take_units :
    (st : State) (sp units left : ℕ) (c : Carved)
    → sub16 (st.page sp).units units ≡ left
    → slob_page_free (take_units st sp units c) sp
      ≡ (if left == 0 then false else slob_page_free st sp)
unfolding take_units clear_slob_page_free
flag-take_units st sp units left c e = ground arith

mem-take_units : (st : State) (sp units : ℕ) (c : Carved) → (take_units st sp units c).mem ≡ c.mem
unfolding take_units
mem-take_units st sp units c = ground arith

module _ (st : State) (sp units left : ℕ) (c : Carved)
    (e : sub16 (st.page sp).units units ≡ left) where
  page-take_units :
      (((take_units st sp units c).page sp).free ≡ c.free)
      × (((take_units st sp units c).page sp).units ≡ left)
      × ((i : ℕ) → (i == sp) ≡ false → (take_units st sp units c).page i ≡ st.page i)
  unfolding take_units
  page-take_units = (ground arith, ground arith, λ i ne. ground arith)

  lists-take_units :
      (take_units st sp units c).lists
      ≡ (if left == 0 then (clear_slob_page_free st sp).lists else st.lists)
  unfolding take_units
  lists-take_units = ground arith

take_units-Taken :
    (st : State) (sp units : ℕ) (c : Carved) (bs bs' : List Block)
    → IsPage st sp bs
    → FreeList c.mem sp bs'
    → c.free ≡ start sp bs'
    → total bs' + units ≡ total bs
    → ((y : ℕ) → Outside y bs → c.mem y ≡ st.mem y)
    → Taken st sp bs bs' (take_units st sp units c)
unfolding sub16
take_units-Taken st sp units c bs bs' p list free sum frame =
    let e : sub16 (st.page sp).units units ≡ total bs' =
      omega (arith, p.count, total-le st.mem sp bs p.list, start-low st.mem sp bs p.list) in
    let (head, count, others) = page-take_units st sp units (total bs') c e in
    let lists = lists-take_units st sp units (total bs') c e in
    record {
      page = record {
        list = rw (mem-take_units st sp units c) list;
        head = head ∙ free;
        count = count;
      };
      emptied = λ none_left. rw (lists, none_left);
      kept = λ some_left. rw (lists, nonzero _ some_left);
      others = others;
      slab = slab-take_units st sp units c;
      flag = flag-take_units st sp units (total bs') c e;
      frame = λ y out. rw (mem-take_units st sp units c) (frame y out);
    }

module _ (st : State) (sp size align cur : ℕ) (head : (st.page sp).free ≡ cur) where
  run_null :
      page_search 2048 st.mem (st.page sp).free (slob_units_of size) align none cur ≡ some none
      → slob_page_alloc st sp size align none none ≡ ok (st, none)
  unfolding slob_page_alloc
  run_null e = ground arith

  run_block :
      (c : Carved) {x : ℕ}
      → page_search 2048 st.mem (st.page sp).free (slob_units_of size) align none cur
        ≡ some (some c)
      → c.block ≡ x
      → slob_page_alloc st sp size align none none
        ≡ ok (take_units st sp (slob_units_of size) c, some x)
  unfolding slob_page_alloc
  run_block c e at = ground arith

-- `slob_page_alloc` on a page with free blocks ends, and is first fit: it gives no block and
-- changes nothing if no block has room behind its aligned address. Otherwise it gives the first
-- such address, the page's memory, `free` field and counter then describe what is left, the page
-- leaves the lists exactly if nothing is left, other pages and units outside the free blocks stay.
pub slob_page_alloc_lem :
    (st : State) (sp size align : ℕ) (q : Block) (bs : List Block)
    → IsPage st sp (q ∷ bs)
    → 0 < size
    → ((fit (slob_units_of size) align (q ∷ bs) ≡ none)
        × (slob_page_alloc st sp size align none none ≡ ok (st, none)))
      ⊎ ((x : ℕ) × (bs' : List Block) × (st' : State) × (fit (slob_units_of size) align (q ∷ bs)
            ≡ some (x, bs'))
          × (slob_page_alloc st sp size align none none ≡ ok (st', some x))
          × Taken st sp (q ∷ bs) bs' st')
slob_page_alloc_lem st sp size align (a, n) bs p pos =
    let units = slob_units_of size in
    let few : length bs < 2048 =
      omega
        (arith, FreeList-length st.mem sp bs p.list.1, p.list.0.room, p.list.0.low, p.list.0.pos) in
    let ref =
      page_search-Refines st.mem sp (st.page sp).free units align 2048 none a n bs p.list p.head
        (slob_units_of-pos size pos) few in
    elim (Option-cases (fit units align ((a, n) ∷ bs))) [
      | inl nothing ↦
          let ref' =
            subst
              (λ o.
                Refines st.mem sp (st.page sp).free none ((a, n) ∷ bs) o
                  (page_search 2048 st.mem (st.page sp).free units align none a))
              nothing ref in
          inl (nothing, run_null st sp size align a p.head ref')
      | inr ((x, bs'), e) ↦
          let ref' =
            subst
              (λ o.
                Refines st.mem sp (st.page sp).free none ((a, n) ∷ bs) o
                  (page_search 2048 st.mem (st.page sp).free units align none a))
              e ref in
          let (r, found, at, list, linked, kept, frame) = ref' in
          inr (
            x,
            bs',
            take_units st sp units r,
            e,
            run_block st sp size align a p.head r found at,
            take_units-Taken st sp units r ((a, n) ∷ bs) bs' p list linked
                (total-fit units align ((a, n) ∷ bs) e) (λ y out. frame y tt out),
          )
    ]
