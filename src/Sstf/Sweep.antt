-- ===== src/Sstf/Sweep.antt =====
-- Repeated `sstf_dispatch`: the order in which a queue is served.
use mathlib.Core.List.{reverse-reverse}
use Prim.Native.Nat.add
use cs.Common.{
  ℕ, zero, suc, ◌+◌, ◌-◌, ◌≤◌, ◌<◌, ◌≡◌, refl, ap, ◌∙◌, none, some, List, [], ◌∷◌, ◌++◌, reverse,
  append-nil, arith, ltb, lt→ltb, le→ltb, length, All, All-mono, All-reverse,
}
use cs.Sstf.{Request, SstfData, Direction, next, prev, find_first, find_last, choose, dispatch}

-- The requests that the next `n` calls of `sstf_dispatch` hand on.
pub drain : ℕ → SstfData → List Request
drain zero nd = []
drain (suc n) nd =
    let r = dispatch nd in elim r.1 [ some rq ↦ rq ∷ drain n r.0 | none ↦ drain n r.0 ]

-- Strictly ascending and strictly descending sectors.
abbrev pub IsAscending : List Request → Type 0
IsAscending [] = Unit
IsAscending (x ∷ xs) = All (λ y. x.pos < y.pos) xs × IsAscending xs

abbrev pub IsDescending : List Request → Type 0
IsDescending [] = Unit
IsDescending (x ∷ xs) = All (λ y. y.pos < x.pos) xs × IsDescending xs

abbrev state : Direction → ℕ → List Request → SstfData
state d sec q = record { direction = d; prevsec = sec; queue = q }

find_first-skip :
    (sec : ℕ) (lows : List Request) (h : Request) (hs : List Request)
    → All (λ y. y.pos ≤ sec) lows
    → sec < h.pos
    → find_first (λ x. ltb sec x.pos) (lows ++ h ∷ hs) ≡ some (h, lows ++ hs)
unfolding find_first
find_first-skip sec [] h hs low high = rw (lt→ltb _ _ high)
find_first-skip sec (l ∷ ls) h hs low high =
    rw (le→ltb _ _ low.0, find_first-skip sec ls h hs low.1 high)

find_first-fail :
    (sec : ℕ) (lows : List Request)
    → All (λ y. y.pos ≤ sec) lows
    → find_first (λ x. ltb sec x.pos) lows ≡ none
unfolding find_first
find_first-fail sec [] low = refl
find_first-fail sec (l ∷ ls) low = rw (le→ltb _ _ low.0, find_first-fail sec ls low.1)

drain-step :
    (n : ℕ) (nd nd' : SstfData) (rq : Request)
    → dispatch nd ≡ (nd', some rq)
    → drain (suc n) nd ≡ rq ∷ drain n nd'
unfolding drain
drain-step n nd nd' rq e = ground arith

dispatch-up :
    (sec : ℕ) (lows : List Request) (h : Request) (hs : List Request)
    → All (λ y. y.pos ≤ sec) lows
    → sec < h.pos
    → dispatch (state next sec (lows ++ h ∷ hs)) ≡ (state next h.pos (lows ++ hs), some h)
unfolding dispatch choose
dispatch-up sec lows h hs low high = ground (arith, find_first-skip sec lows h hs low high)

dispatch-turn :
    (sec : ℕ) (x : Request) (xs : List Request)
    → All (λ y. y.pos ≤ sec) (x ∷ xs)
    → dispatch (state next sec (reverse (x ∷ xs))) ≡ (state prev x.pos (reverse xs), some x)
unfolding dispatch choose find_last find_first
dispatch-turn sec x xs low = ground (
  arith,
  find_first-fail sec (reverse (x ∷ xs)) (All-reverse _ (x ∷ xs) low),
  reverse-reverse (x ∷ xs),
)

dispatch-down :
    (sec : ℕ) (x : Request) (xs : List Request)
    → x.pos < sec
    → dispatch (state prev sec (reverse (x ∷ xs))) ≡ (state prev x.pos (reverse xs), some x)
unfolding dispatch choose find_last find_first
dispatch-down sec x xs below = ground (arith, reverse-reverse (x ∷ xs))

-- Downwards each call takes the last request.
drain-down :
    (sec : ℕ) (down : List Request)
    → IsDescending down
    → All (λ y. y.pos < sec) down
    → drain (length down) (state prev sec (reverse down)) ≡ down
unfolding drain
drain-down sec [] desc below = refl
drain-down sec (x ∷ xs) desc below =
    drain-step _ _ _ x (dispatch-down sec x xs below.0)
    ∙ ap (λ l. x ∷ l) (drain-down x.pos xs desc.1 desc.0)

drain-turn :
    (sec : ℕ) (down : List Request)
    → IsDescending down
    → All (λ y. y.pos ≤ sec) down
    → drain (length down) (state next sec (reverse down)) ≡ down
unfolding drain
drain-turn sec [] desc low = refl
drain-turn sec (x ∷ xs) desc low =
    drain-step _ _ _ x (dispatch-turn sec x xs low)
    ∙ ap (λ l. x ∷ l) (drain-down x.pos xs desc.1 desc.0)

-- The elevator sweeps. From a queue in strictly ascending order, so of distinct sectors, going up
-- from the sector `sec`: as many calls as there are requests hand on those above `sec` in ascending
-- order, then those up to `sec` in descending order, and so each request once.
pub drain-sweep :
    (sec : ℕ) (down highs : List Request)
    → IsDescending down
    → All (λ y. y.pos ≤ sec) down
    → IsAscending highs
    → All (λ y. sec < y.pos) highs
    → drain (length highs + length down) (state next sec (reverse down ++ highs)) ≡ highs ++ down
drain-sweep sec down [] desc low asc high =
    rw (append-nil (reverse down), add.zero (length down)) (drain-turn sec down desc low)
drain-sweep sec down (h ∷ hs) desc low asc high = rw (add.suc (length hs) (length down)) (
    drain-step _ _ _ h (dispatch-up sec (reverse down) h hs (All-reverse _ down low) high.0)
    ∙ ap (λ l. h ∷ l)
        (drain-sweep h.pos down hs desc (All-mono _ _ (λ y le. omega (arith, high.0)) down low)
          asc.1 asc.0))

-- The elevator does not seek the shortest way: going up it serves the request above although the
-- one below is strictly nearer to the last sector.
dispatch_far :
    (sec : ℕ) (near far : Request)
    → near.pos < sec
    → sec < far.pos
    → sec - near.pos < far.pos - sec
    → (dispatch (state next sec (near ∷ far ∷ []))).1 ≡ some far
dispatch_far sec near far below above nearer =
    ap (λ r. r.1) (dispatch-up sec (near ∷ []) far [] (omega arith, tt) above)
