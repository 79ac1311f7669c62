-- ===== src/Slob/PageFree/Refine.antt =====
-- Freeing into a page's memory, and insertion into the free list that the memory holds.
use cs.Common.{
  ℕ, zero, suc, ◌+◌, ◌*◌, ◌≤◌, ◌<◌, ◌≡◌, ◌⊎◌, sym, ap, inl, inr, true, some, List, [], ◌∷◌, ◌∙◌,
  arith, ltb, ltb→lt, ltb→le, le→ltb, ◌==◌, Bool-cases, length, All,
}
use cs.Slob.Block.{Mem, slob_next}
use cs.Slob.Block.FreeList.{
  Block, start, FreeList, Beside, Outside, IsBlock, IsBlock-frame, Outside-below,
}
use cs.Slob.PageFree.{Freed, free_front, find_prev, free_between, page_free}
use cs.Slob.PageFree.Writes.{start-join, front, front_lem, free_between_lem}
use cs.Slob.PageFree.Insert.{join, insert_after, insert_free}

-- The block of `u` units at `b` shares no unit with the blocks of the list.
abbrev pub Disjoint : ℕ → ℕ → List Block → Type 0
Disjoint b u = All (λ q. (b + u ≤ q.0) ⊎ (q.0 + q.1 ≤ b))

start-insert_after :
    (k a n : ℕ) (b : Block) (bs : List Block) → start k (insert_after (a, n) b bs) ≡ a
unfolding insert_after
start-insert_after k a n b [] = start-join k a n (join b [])
start-insert_after k a n b (q ∷ bs) = elim (Bool-cases (ltb q.0 b.0)) [
  | inl below ↦ rw below
  | inr above ↦ rw above (start-join k a n (join b (q ∷ bs)))
]

find_prev-step :
    (fuel : ℕ) (m : Mem) (b a c : ℕ)
    → slob_next m a ≡ c
    → ltb c b ≡ true
    → find_prev (suc fuel) m b a ≡ find_prev fuel m b c
unfolding find_prev
find_prev-step fuel m b a c link below = rw (link, below)

free_front-front :
    (m : Mem) (k b u a n : ℕ) (bs : List Block)
    → FreeList m k ((a, n) ∷ bs)
    → free_front m a b u ≡ record { mem = front m k b u ((a, n) ∷ bs); free = b }
unfolding free_front front
free_front-front m k b u a n bs f = elim (Bool-cases (b + u == a)) [
  | inl touch ↦ rw (touch, f.0.units, f.0.link)
  | inr apart ↦ rw apart
]

-- The walk from the block `(a, n)` stops, and the writes behind it insert the freed block.
free_after :
    (fuel : ℕ) (m : Mem) (k a n b u : ℕ) (bs : List Block)
    → IsBlock m k a n (start k bs)
    → FreeList m k bs
    → a + n ≤ b
    → 0 < u
    → b + u ≤ k * 2048 + 2048
    → Disjoint b u bs
    → length bs < fuel
    → (p : ℕ) × (find_prev fuel m b a ≡ some p)
      × FreeList (free_between m b u p) k (insert_after (a, n) (b, u) bs)
      × ((y : ℕ) → Beside y a n → Beside y b u → Outside y bs → free_between m b u p y ≡ m y)
unfolding find_prev insert_after
free_after zero m k a n b u bs p f le pos room apart enough = absurd (omega arith)
free_after (suc fuel) m k a n b u [] p f le pos room apart enough =
    let (list, frame) = free_between_lem m k a n b u [] p f le pos room in
    (a, rw (p.link, le→ltb (k * 2048 + 2048) b (omega arith)), list, frame)
free_after (suc fuel) m k a n b u ((c, w) ∷ bs) p f le pos room apart enough =
    elim (Bool-cases (ltb c b)) [
      | inl below ↦
          let (q, found, list, frame) =
            free_after fuel m k c w b u bs f.0 f.1 (omega (arith, ltb→lt c b below, apart.0)) pos
              room apart.1 (omega arith) in
          let same = λ (y : ℕ) (lo : a ≤ y) (hi : y < a + n).
            frame y (inl (omega (arith, p.room))) (inl (omega arith))
              (Outside-below m k y bs f.1 (omega (arith, p.room, f.0.room))) in
          (
            q,
            find_prev-step fuel m b a c p.link below ∙ found,
            rw below (rw (start-insert_after k c w (b, u) bs) (IsBlock-frame m _ p same), list),
            λ y out_a out_b out. frame y out.0 out_b out.1,
          )
      | inr above ↦
          let (list, frame) =
            free_between_lem m k a n b u ((c, w) ∷ bs) p f le pos
              (omega (arith, ltb→le c b above, apart.0, f.0.pos)) in
          (a, rw (p.link, above), rw above list, frame)
    ]

-- Freeing `u` units at `b` into a page with the free blocks `q ∷ bs` ends, and leaves the memory
-- with the free list in which the freed block is inserted and joined to its neighbours; no unit
-- outside the free blocks and the freed one is written.
pub page_free-Refines :
    (fuel : ℕ) (m : Mem) (k b u : ℕ) (q : Block) (bs : List Block)
    → FreeList m k (q ∷ bs)
    → k * 2048 ≤ b
    → 0 < u
    → b + u ≤ k * 2048 + 2048
    → Disjoint b u (q ∷ bs)
    → length bs < fuel
    → (r : Freed) × (page_free fuel m q.0 b u ≡ some r)
      × (r.free ≡ start k (insert_free (b, u) (q ∷ bs)))
      × FreeList r.mem k (insert_free (b, u) (q ∷ bs))
      × ((y : ℕ) → Beside y b u → Outside y (q ∷ bs) → r.mem y ≡ m y)
unfolding page_free insert_free
page_free-Refines fuel m k b u (a, n) bs f low pos room apart enough = elim (Bool-cases (ltb b a)) [
  | inl before ↦
      let fits : b + u ≤ a = omega (arith, ltb→lt b a before, apart.0, f.0.pos) in
      let (list, frame) = front_lem m k b u ((a, n) ∷ bs) f low pos fits in
      (
        record { mem = front m k b u ((a, n) ∷ bs); free = b },
        rw before (ap some (free_front-front m k b u a n bs f)),
        rw before (sym (start-join k b u ((a, n) ∷ bs))),
        rw before list,
        frame,
      )
  | inr behind ↦
      let (p, found, list, frame) =
        free_after fuel m k a n b u bs f.0 f.1 (omega (arith, ltb→le b a behind, apart.0)) pos room
          apart.1 enough in
      (
        record { mem = free_between m b u p; free = a },
        rw (behind, found),
        rw behind (sym (start-insert_after k a n (b, u) bs)),
        rw behind list,
        λ y out_b out. frame y out.0 out_b out.1,
      )
]
