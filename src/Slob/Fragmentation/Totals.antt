-- ===== src/Slob/Fragmentation/Totals.antt =====
-- What `get_fragmentation` adds up.
use cs.Common.{
  ℕ, zero, suc, refl, ap, ◌∙◌, ◌+◌, ◌*◌, ◌/◌, ◌<◌, ◌≡◌, true, false, some, List, [], ◌∷◌, arith,
  length,
}
use cs.Slob.Block.{Mem, slob_units, slob_next, slob_last}
use cs.Slob.Block.FreeList.{Block, FreeList, FreeList-length, slob_last-end, slob_last-inner, total}
use cs.Slob.Allocator.{State}
use cs.Slob.Allocator.Page.{IsPage}
use cs.Slob.Allocator.BestFit.Ends.{ArePages}
use cs.Slob.Fragmentation.{
  Page, Tally, count_block, over_blocks, over_pages, over_lists, get_fragmentation,
}

-- The counter of the last page on the list, or what the list before left.
unfoldable pub last_units : State → ℕ → List ℕ → ℕ
last_units st left [] = left
last_units st left (sp ∷ pages) = last_units st (st.page sp).units pages

-- The sum of these over `n` lists from the list `i` on.
unfoldable pub sum_last : State → (n i left : ℕ) → ℕ
sum_last st zero i left = 0
sum_last st (suc n) i left = let u = last_units st left (st.lists i) in u + sum_last st n (i + 1) u

blocks-last :
    (fuel : ℕ) (m : Mem) (a n : ℕ) (p : Page)
    → slob_units m a ≡ n
    → slob_last m a ≡ true
    → over_blocks (suc fuel) m a p ≡ some (count_block p n)
unfolding over_blocks
blocks-last fuel m a n p e last = rw (e, last) refl

blocks-more :
    (fuel : ℕ) (m : Mem) (a n c : ℕ) (p : Page)
    → slob_units m a ≡ n
    → slob_next m a ≡ c
    → slob_last m a ≡ false
    → over_blocks (suc fuel) m a p ≡ over_blocks fuel m c (count_block p n)
unfolding over_blocks
blocks-more fuel m a n c p e link more = rw (e, link, more) refl

over_blocks-total :
    (fuel : ℕ) (m : Mem) (k a n : ℕ) (bs : List Block) (p : Page)
    → FreeList m k ((a, n) ∷ bs)
    → length bs < fuel
    → (p' : Page) × (over_blocks fuel m a p ≡ some p') × (p'.total ≡ p.total + total ((a, n) ∷ bs))
over_blocks-total zero m k a n bs p f h = absurd (omega arith)
over_blocks-total (suc fuel) m k a n [] p f h =
    (count_block p n, blocks-last fuel m a n p f.0.units (slob_last-end f.0 refl), omega arith)
over_blocks-total (suc fuel) m k a n ((c, w) ∷ bs) p f h =
    let (p', run, sum) = over_blocks-total fuel m k c w bs (count_block p n) f.1 (omega arith) in
    let more : slob_last m a ≡ false =
      slob_last-inner f.0 (omega (arith, f.1.0.pos, f.1.0.room, f.1.0.high)) in
    (p', blocks-more fuel m a n c p f.0.units f.0.link more ∙ run, omega (arith, sum))

pages-step :
    (st : State) (sp : ℕ) (pages : List ℕ) (p p' : Page)
    → over_blocks 2048 st.mem (st.page sp).free (record { total = 0; max = 0 }) ≡ some p'
    → over_pages st (sp ∷ pages) p ≡ over_pages st pages p'
unfolding over_pages
pages-step st sp pages p p' e = ground arith

page-total :
    (st : State) (sp : ℕ) (q : Block) (bs : List Block)
    → IsPage st sp (q ∷ bs)
    → (p' : Page) × (over_blocks 2048 st.mem (st.page sp).free (record { total = 0; max = 0 })
        ≡ some p')
      × (p'.total ≡ (st.page sp).units)
page-total st sp (a, n) bs i =
    let few : length bs < 2048 =
      omega
        (arith, FreeList-length st.mem sp bs i.list.1, i.list.0.room, i.list.0.low, i.list.0.pos) in
    let (p', run, sum) =
      over_blocks-total 2048 st.mem sp a n bs (record { total = 0; max = 0 }) i.list few in
    (p', rw i.head run, omega (arith, sum, i.count))

over_pages-last :
    (st : State) (pages : List ℕ) (p : Page)
    → ArePages st pages
    → (p' : Page) × (over_pages st pages p ≡ some p') × (p'.total ≡ last_units st p.total pages)
unfolding over_pages last_units
over_pages-last st [] p h = (p, refl, refl)
over_pages-last st (sp ∷ pages) p h =
    let (q, bs, i) = h.0 in
    let (p1, run, sum) = page-total st sp q bs i in
    let (p', rest, e) = over_pages-last st pages p1 h.1 in
    (p', pages-step st sp pages p p1 run ∙ rest, e ∙ ap (λ (u : ℕ). last_units st u pages) sum)

lists-step :
    (st : State) (n i : ℕ) (p p' : Page) (t : Tally)
    → over_pages st (st.lists i) p ≡ some p'
    → over_lists st (suc n) i p t
      ≡ over_lists st n (i + 1) p' (record {
        pages = t.pages + 1;
        free_total = t.free_total + p'.total;
        free_max = t.free_max + p'.max;
      })
unfolding over_lists
lists-step st n i p p' t e = ground arith

over_lists-sum :
    (st : State) (n i : ℕ) (p : Page) (t : Tally)
    → ((l : ℕ) → ArePages st (st.lists l))
    → (t' : Tally) × (over_lists st n i p t ≡ some t')
      × (t'.pages ≡ t.pages + n)
      × (t'.free_total ≡ t.free_total + sum_last st n i p.total)
unfolding over_lists sum_last
over_lists-sum st zero i p t h = (t, refl, omega arith, omega arith)
over_lists-sum st (suc n) i p t h =
    let (p', run, e) = over_pages-last st (st.lists i) p (h i) in
    let t1 : Tally = record {
      pages = t.pages + 1;
      free_total = t.free_total + p'.total;
      free_max = t.free_max + p'.max;
    } in
    let (t', rest, pages, sum) = over_lists-sum st n (i + 1) p' t1 h in
    (
      t',
      lists-step st n i p p' t run ∙ rest,
      omega (arith, pages),
      omega (arith, sum, e, ap (λ (u : ℕ). sum_last st n (i + 1) u) e),
    )

fragmentation-run :
    (st : State) (t : Tally) (s : ℕ)
    → over_lists st 11 0
        (record { total = 0; max = 0 })
        (record { pages = 0; free_total = 0; free_max = 0 })
      ≡ some t
    → t.pages ≡ 11
    → t.free_total ≡ s
    → get_fragmentation st true ≡ some (s * 2 / 11)
unfolding get_fragmentation
fragmentation-run st t s run pages sum = ground arith

-- With well-formed pages on the lists, `get_fragmentation(1)` ends, and is twice the sum of the
-- counters of the last page of each list (for an empty list, of the page counted before), divided
-- by 11: the other pages are not counted, and the divisor is the number of lists.
pub get_fragmentation_lem :
    (st : State)
    → ((l : ℕ) → ArePages st (st.lists l))
    → get_fragmentation st true ≡ some (sum_last st 11 0 0 * 2 / 11)
get_fragmentation_lem st h =
    let (t, run, pages, sum) =
      over_lists-sum st 11 0 (record { total = 0; max = 0 })
        (record { pages = 0; free_total = 0; free_max = 0 }) h in
    fragmentation-run st t (sum_last st 11 0 0) run (omega (arith, pages)) (omega (arith, sum))
