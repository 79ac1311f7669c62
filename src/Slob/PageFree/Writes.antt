-- ===== src/Slob/PageFree/Writes.antt =====
-- The writes of `slob_free` into a page in memory, and the free list that the memory then holds.
use mathlib.Core.Path.{subst}
use native.Mathlib.Nat.{add_comm}
use cs.Common.{
  ℕ, ◌+◌, ◌*◌, ◌≤◌, ◌<◌, ◌≡◌, refl, sym, inl, inr, true, false, List, [], ◌∷◌, ◌∙◌, not, ◌&&◌,
  arith, ◌==◌, if◌then◌else◌, Bool-cases,
}
use cs.Slob.Block.{Mem, set_slob, slob_units, slob_next, slob_last}
use cs.Slob.Block.FreeList.{
  Block, start, FreeList, FreeList-frame, Beside, Outside, IsBlock, IsBlock-frame, set_slob-IsBlock,
  set_slob-frame, slob_last-end, slob_last-inner, Outside-below,
}
use cs.Slob.PageFree.{link_prev, free_between}
use cs.Slob.PageFree.Insert.{join}

pub start-join : (k b u : ℕ) (bs : List Block) → start k (join (b, u) bs) ≡ b
unfolding join
start-join k b u [] = refl
start-join k b u ((a, n) ∷ bs) = ground arith

-- The write of a block in front of a list: the size and the link that the code gives it.
unfoldable pub front : Mem → ℕ → ℕ → ℕ → List Block → Mem
front m k b u [] = set_slob m b u (start k [])
front m k b u ((a, n) ∷ bs) =
    if b + u == a then set_slob m b (u + n) (start k bs) else set_slob m b u a

pub front_lem :
    (m : Mem) (k b u : ℕ) (bs : List Block)
    → FreeList m k bs
    → k * 2048 ≤ b
    → 0 < u
    → b + u ≤ start k bs
    → FreeList (front m k b u bs) k (join (b, u) bs)
      × ((y : ℕ) → Beside y b u → Outside y bs → front m k b u bs y ≡ m y)
unfolding front join
front_lem m k b u [] f low pos room = (
  (set_slob-IsBlock m k b u (k * 2048 + 2048) low pos room (omega arith), tt),
  λ y beside _. set_slob-frame m b u (k * 2048 + 2048) y pos (omega arith) beside,
)
front_lem m k b u ((a, n) ∷ bs) f low pos room = elim (Bool-cases (b + u == a)) [
  | inl touch ↦
      let at : b + u ≡ a = ground arith in
      rw touch (
        (
          set_slob-IsBlock m k b (u + n) (start k bs) low (omega arith) (omega (arith, f.0.room))
              f.0.high,
          FreeList-frame m _ k bs f.1 (λ y lo _.
              set_slob-frame m b (u + n) (start k bs) y (omega arith)
                (omega (arith, f.0.high, f.0.room)) (inr (omega (arith, f.0.room)))),
        ),
        λ y beside out.
            set_slob-frame m b (u + n) (start k bs) y (omega arith)
              (omega (arith, f.0.high, f.0.room)) (omega arith),
      )
  | inr apart ↦ rw apart (
    (
      set_slob-IsBlock m k b u a low pos room (omega (arith, f.0.high, f.0.room)),
      FreeList-frame m _ k ((a, n) ∷ bs) f (λ y lo _.
          set_slob-frame m b u a y pos (omega (arith, f.0.high, f.0.room)) (inr (omega arith))),
    ),
    λ y beside out. set_slob-frame m b u a y pos (omega (arith, f.0.high, f.0.room)) beside,
  )
]

-- The first write of `free_between` is the write of a block in front of what follows `prev`.
first_write :
    (m : Mem) (k b u a n : ℕ) (bs : List Block)
    → IsBlock m k a n (start k bs)
    → FreeList m k bs
    → (if not (slob_last m a) && b + u == slob_next m a
        then set_slob m b (u + slob_units m (slob_next m a)) (slob_next m (slob_next m a))
        else set_slob m b u (slob_next m a))
      ≡ front m k b u bs
unfolding front
first_write m k b u a n [] p f = rw (slob_last-end p refl, p.link)
first_write m k b u a n ((c, w) ∷ bs) p f =
    rw (slob_last-inner p (omega (arith, f.0.pos, f.0.room, f.0.high)), p.link, f.0.units, f.0.link)

link_prev-joined :
    (m : Mem) (k a n nx b u x : ℕ)
    → IsBlock m k a n nx
    → IsBlock m k b u x
    → (a + n == b) ≡ true
    → link_prev m a b ≡ set_slob m a (n + u) x
unfolding link_prev
link_prev-joined m k a n nx b u x p q touch = rw (p.units, touch, q.units, q.link, add_comm n u)

link_prev-linked :
    (m : Mem) (k a n nx b : ℕ)
    → IsBlock m k a n nx
    → (a + n == b) ≡ false
    → link_prev m a b ≡ set_slob m a n b
unfolding link_prev
link_prev-linked m k a n nx b p apart = rw (p.units, apart)

-- The memory `m'` holds the list with `(a, n)` in front, and differs from `m` only in its blocks.
abbrev Joined : Mem → (k a n b u : ℕ) → List Block → Mem → Type 0
Joined m k a n b u bs m' =
    FreeList m' k (join (a, n) ((b, u) ∷ bs))
    × ((y : ℕ) → Beside y a n → Outside y ((b, u) ∷ bs) → m' y ≡ m y)

-- The second write joins `prev` to a list, or links it to that.
join_before :
    (m : Mem) (k a n nx b u : ℕ) (bs : List Block)
    → IsBlock m k a n nx
    → FreeList m k ((b, u) ∷ bs)
    → a + n ≤ b
    → Joined m k a n b u bs (link_prev m a b)
unfolding join
join_before m k a n nx b u bs p f le = elim (Bool-cases (a + n == b)) [
  | inl touch ↦
      let at : a + n ≡ b = ground arith in
      let small : n + u < 32768 = omega (arith, p.low, f.0.high, f.0.room) in
      let pos : 0 < n + u = omega (arith, p.pos) in
      let m' = set_slob m a (n + u) (start k bs) in
      subst (Joined m k a n b u bs) (sym (link_prev-joined m k a n nx b u (start k bs) p f.0 touch))
        (rw touch (
          (
            set_slob-IsBlock m k a (n + u) (start k bs) p.low pos (omega (arith, f.0.room))
                f.0.high,
            FreeList-frame m m' k bs f.1 (λ y lo _.
                set_slob-frame m a (n + u) (start k bs) y pos small
                  (inr (omega (arith, f.0.room)))),
          ),
          λ y beside out.
              set_slob-frame m a (n + u) (start k bs) y pos small (omega (arith, out.0, beside)),
        ))
  | inr apart ↦
      let small : n < 32768 = omega (arith, p.low, f.0.high, f.0.room) in
      let m' = set_slob m a n b in
      subst (Joined m k a n b u bs) (sym (link_prev-linked m k a n nx b p apart)) (
        rw apart (
          (
            set_slob-IsBlock m k a n b p.low p.pos le (omega (arith, f.0.high, f.0.room)),
            FreeList-frame m m' k ((b, u) ∷ bs) f
                (λ y lo _. set_slob-frame m a n b y p.pos small (inr (omega arith))),
          ),
          λ y beside out. set_slob-frame m a n b y p.pos small beside,
        ))
]

join-form :
    (b u : ℕ) (bs : List Block)
    → (w : ℕ) × (rest : List Block) × (join (b, u) bs ≡ (b, w) ∷ rest)
      × ((y : ℕ) → Beside y b u → Outside y bs → Outside y ((b, w) ∷ rest))
unfolding join
join-form b u [] = (u, [], refl, λ y out _. (out, tt))
join-form b u ((a, n) ∷ bs) = elim (Bool-cases (b + u == a)) [
  | inl touch ↦ (u + n, bs, rw touch, λ y beside out. (ground arith, out.1))
  | inr apart ↦ (u, (a, n) ∷ bs, rw apart, λ y beside out. (beside, out))
]

pub free_between_lem :
    (m : Mem) (k a n b u : ℕ) (bs : List Block)
    → IsBlock m k a n (start k bs)
    → FreeList m k bs
    → a + n ≤ b
    → 0 < u
    → b + u ≤ start k bs
    → FreeList (free_between m b u a) k (join (a, n) (join (b, u) bs))
      × ((y : ℕ) → Beside y a n → Beside y b u → Outside y bs → free_between m b u a y ≡ m y)
unfolding free_between
free_between_lem m k a n b u bs p f le pos room =
    let m1 = front m k b u bs in
    let (list, frame) = front_lem m k b u bs f (omega (arith, p.low)) pos room in
    let (w, rest, form, out) = join-form b u bs in
    let p1 : IsBlock m1 k a n (start k bs) =
      IsBlock-frame m m1 p
        (λ y _ h. frame y (inl (omega arith)) (Outside-below m k y bs f (omega arith))) in
    let (list2, frame2) =
      join_before m1 k a n (start k bs) b w rest p1 (subst (FreeList m1 k) form list) le in
    rw (first_write m k b u a n bs p f, form)
      (
        list2,
        λ y beside_a beside_b outside.
            frame2 y beside_a (out y beside_b outside) ∙ frame y beside_b outside,
      )
