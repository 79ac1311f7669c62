-- ===== src/Slob/Heap/Calls.antt =====
-- The outcome of `slob_page_alloc` and `slob_alloc` in a state with the invariant.
use mathlib.Core.Path.{subst}
use cs.Common.{
  ℕ, ◌*◌, ◌<◌, ◌≡◌, ◌⊎◌, inl, inr, refl, sym, ap, ◌∙◌, Bool, true, false, none, some, List, [], ◌∷◌,
  ◌++◌, arith, All, All-mono,
}
use cs.Slob.Block.{Mem, slob_units_of}
use cs.Slob.Block.FreeList.{Block, Beside}
use cs.Slob.PageAlloc.Fit.{fit}
use cs.Slob.Allocator.{State, ok, bug, is_slob_page, slob_page_free, slob_page_alloc, size_class}
use cs.Slob.Allocator.Page.{IsPage, slob_page_alloc_lem}
use cs.Slob.Allocator.BestFit.Ends.{ArePages}
use cs.Slob.Allocator.Alloc.{slob_alloc, new_page, prepare_page, zeroed, clear}
use cs.Slob.Allocator.Alloc.FreshPage.{
  prepare_page-IsPage, new_page-run, slob_alloc-new_page, slab-prepare_page,
}
use cs.Slob.Heap.{Held, live_units, AreApart, Used, is_partly, IsHeap}
use cs.Slob.Heap.Frame.{update-same, Used-Beside}
use cs.Slob.Heap.Take.{IsHeap-taken, frame_taken}
use cs.Slob.Heap.Fresh.{IsHeap-prepared, frame_prepared}
use cs.Slob.Heap.Write.{IsHeap-written, clear-Beside}

-- The order of the blocks in use does not matter.
All-front :
    {A : Type 0} (P : A → Type 0) (xs : List A) (y : A) (ys : List A)
    → All P (xs ++ y ∷ ys)
    → All P (y ∷ xs ++ ys)
All-front P [] y ys h = h
All-front P (x ∷ xs) y ys h = let (hy, rest) = All-front P xs y ys h.1 in (hy, (h.0, rest))

live_units-front :
    (k : ℕ) (xs : List Held) (c : Held) (ys : List Held)
    → live_units k (c ∷ xs ++ ys) ≡ live_units k (xs ++ c ∷ ys)
live_units-front k [] c ys = refl
live_units-front k (x ∷ xs) c ys = omega (arith, live_units-front k xs c ys)

AreApart-front :
    (xs : List Held) (c : Held) (ys : List Held) → AreApart (xs ++ c ∷ ys) → AreApart (c ∷ xs ++ ys)
AreApart-front [] c ys h = h
AreApart-front (x ∷ xs) c ys h =
    let (away, rest) = AreApart-front xs c ys h.1 in
    let (here, others) = All-front _ xs c ys h.0 in ((omega (arith, here), away), (others, rest))

pub IsHeap-front :
    (st : State) (f : ℕ → List Block) (xs : List Held) (c : Held) (ys : List Held)
    → IsHeap st f (xs ++ c ∷ ys)
    → IsHeap st f (c ∷ xs ++ ys)
IsHeap-front st f xs c ys h = record {
  parts = λ k slab.
      let p = h.parts k slab in
      record { page = p.page; flag = p.flag; sum = rw (live_units-front k xs c ys) p.sum };
  held = All-front _ xs c ys h.held;
  apart = AreApart-front xs c ys h.apart;
  listed = h.listed;
}

-- A page that is flagged has a free block.
partly-form :
    (bs : List Block) → is_partly bs ≡ true → (q : Block) × (rest : List Block) × (bs ≡ q ∷ rest)
partly-form [] e = absurd (cc e)
partly-form (q ∷ rest) e = (q, rest, refl)

-- The invariant holds with `live'` in use, and the units of `live` keep their values.
unfoldable pub Grows : (st st' : State) (live live' : List Held) → Type 0
Grows st st' live live' =
    ((f : ℕ → List Block) × IsHeap st' f live') × ((y : ℕ) → Used y live → st'.mem y ≡ st.mem y)

pub heap_page_alloc :
    (st st' : State) (f : ℕ → List Block) (live : List Held) (sp size align x : ℕ)
    → IsHeap st f live
    → 0 < size
    → 0 < sp
    → is_slob_page st sp ≡ true
    → slob_page_free st sp ≡ true
    → slob_page_alloc st sp size align none none ≡ ok (st', some x)
    → Grows st st' live ((x, size) ∷ live)
unfolding Grows
heap_page_alloc st st' f live sp size align x h pos real slab flag run =
    let (q, bs, at) = partly-form (f sp) (sym (h.parts sp slab).flag ∙ flag) in
    let page = subst (IsPage st sp) at (h.parts sp slab).page in
    elim (slob_page_alloc_lem st sp size align q bs page pos) [
      | inl (_, run') ↦ absurd (cc (run, run'))
      | inr (x1, bs', st1, e, run', taken) ↦
          let same : ok (st1, some x1) ≡ ok (st', some x) = sym run' ∙ run in
          subst (λ s. Grows st s live ((x, size) ∷ live)) (cc same)
            (subst (λ y. Grows st st1 live ((y, size) ∷ live)) (cc same)
              (
                (
                  _,
                  IsHeap-taken st st1 f live sp size align x1 q bs bs' h slab at real pos e taken,
                ),
                frame_taken st st1 f live sp size align x1 q bs bs' h slab at real pos e taken,
              ))
    ]

-- The pages on a list have free blocks.
pub heap-ArePages :
    (st : State) (f : ℕ → List Block) (live : List Held) (i : ℕ)
    → IsHeap st f live
    → ArePages st (st.lists i)
heap-ArePages st f live i h =
    All-mono _ _ (λ k u. is_page k u.0 u.1) (st.lists i) (h.listed i).partly
  where
    is_page :
        (k : ℕ)
        → is_slob_page st k ≡ true
        → slob_page_free st k ≡ true
        → (q : Block) × (bs : List Block) × IsPage st k (q ∷ bs)
    is_page k slab flag =
        let p = h.parts k slab in
        let (q, bs, e) = partly-form (f k) (sym p.flag ∙ flag) in
        (q, bs, subst (IsPage st k) e p.page)

zeroed_cases :
    (zero_it : Bool) (size : ℕ) (st : State) (x : ℕ)
    → (m : Mem) × (zeroed zero_it size (ok (st, some x)) ≡ ok (record st { mem = m }, some x))
      × ((y : ℕ) → Beside y x (slob_units_of size) → m y ≡ st.mem y)
unfolding zeroed
zeroed_cases true size st x = (clear st.mem x size, refl, clear-Beside st.mem x size)
zeroed_cases false size st x = (st.mem, refl, λ y _. refl)

new_page-bug :
    (st : State) (l size align sp : ℕ) (st1 : State)
    → slob_page_alloc (prepare_page st l sp) sp size align none none ≡ ok (st1, none)
    → new_page st l size align (some sp) ≡ bug
unfolding new_page
new_page-bug st l size align sp st1 e = ground arith

zeroed-bug : (zero_it : Bool) (size : ℕ) → zeroed zero_it size bug ≡ bug
unfolding zeroed
zeroed-bug true size = refl
zeroed-bug false size = refl

-- With a new page at hand, `slob_alloc` stops at its `BUG_ON`, since the page has no room, or
-- returns the aligned start of the page.
pub heap_alloc :
    (fuel : ℕ) (st : State) (f : ℕ → List Block) (live : List Held) (size align sp : ℕ)
    (zero_it : Bool)
    → IsHeap st f live
    → 0 < size
    → 0 < sp
    → is_slob_page st sp ≡ false
    → ((fit (slob_units_of size) align ((sp * 2048, 2048) ∷ []) ≡ none)
        × (slob_alloc fuel st size align zero_it (some sp) ≡ bug))
      ⊎ ((x : ℕ) × (bs : List Block) × (st' : State) × (fit
              (slob_units_of size)
              align
              ((sp * 2048, 2048) ∷ [])
            ≡ some (x, bs))
          × (slob_alloc fuel st size align zero_it (some sp) ≡ ok (st', some x))
          × Grows st st' live ((x, size) ∷ live))
unfolding Grows zeroed
heap_alloc fuel st f live size align sp zero_it h pos real other =
    let l = size_class size in
    let (runs, _) =
      slob_alloc-new_page fuel st size align zero_it (some sp) (heap-ArePages st f live l h) in
    let fresh = prepare_page st l sp in
    let whole = (sp * 2048, 2048) ∷ [] in
    let h1 = IsHeap-prepared st f live l sp h other in
    let at = update-same f sp whole in
    let slab = slab-prepare_page st l sp in
    elim (slob_page_alloc_lem fresh sp size align (sp * 2048, 2048) [] (prepare_page-IsPage st l sp)
      pos) [
        | inl (none_fits, run) ↦ inl (
          none_fits,
          runs
              ∙ ap (zeroed zero_it size) (new_page-bug st l size align sp fresh run)
              ∙ zeroed-bug zero_it size,
        )
        | inr (x, bs, st1, e, run, taken) ↦
            let h2 =
              IsHeap-taken fresh st1 _ live sp size align x (sp * 2048, 2048) [] bs h1 slab at real
                pos e taken in
            let same2 =
              frame_taken fresh st1 _ live sp size align x (sp * 2048, 2048) [] bs h1 slab at real
                pos e taken in
            let (m, runs', same3) = zeroed_cases zero_it size st1 x in
            inr (
              x,
              bs,
              record st1 { mem = m },
              e,
              runs ∙ ap (zeroed zero_it size) (new_page-run st st1 l size align sp x run) ∙ runs',
              (
                (_, IsHeap-written st1 _ ((x, size) ∷ live) m h2 (λ y _ unused. same3 y unused.0)),
                λ y used.
                    same3 y (Used-Beside y x (slob_units_of size) live h2.apart.0 used)
                    ∙ same2 y used
                    ∙ frame_prepared st f live l sp h other y used,
              ),
            )
      ]
