-- ===== src/Dinners/Chain.antt =====
-- The list in memory: what the loops of the linked list find, and what the writes leave.
use cs.Common.{
  ℕ, zero, suc, refl, ◌∙◌, ◌+◌, ◌<◌, ◌≡◌, true, false, arith, ◌==◌, update, List, [], ◌∷◌, ◌++◌,
  length, All, All-append,
}
use cs.Dinners.{ok, null, last_from, walk}

-- The nodes at the addresses of the list hang together from `p` on, and the last one ends in `NULL`.
abbrev pub Chain : (ℕ → ℕ) → ℕ → List ℕ → Type 0
Chain nexts p [] = p ≡ 0
Chain nexts p (x ∷ xs) =
    (p ≡ x) × (0 < x) × All (λ y. (y == x) ≡ false) xs × Chain nexts (nexts x) xs

-- A write to a node outside the chain leaves it.
pub Chain-update :
    (nexts : ℕ → ℕ) (p : ℕ) (xs : List ℕ) (a v : ℕ)
    → All (λ y. (y == a) ≡ false) xs
    → Chain nexts p xs
    → Chain (update nexts a v) p xs
Chain-update nexts p [] a v out c = c
Chain-update nexts p (x ∷ xs) a v out c =
    (c.0, c.1, c.2, rw out.0 (Chain-update nexts (nexts x) xs a v out.1 c.3))

pub Chain-pos : (nexts : ℕ → ℕ) (p : ℕ) (xs : List ℕ) → Chain nexts p xs → All (λ y. 0 < y) xs
Chain-pos nexts p [] c = tt
Chain-pos nexts p (x ∷ xs) c = (c.1, Chain-pos nexts (nexts x) xs c.3)

abbrev pub last_of : ℕ → List ℕ → ℕ
last_of x [] = x
last_of x (y ∷ ys) = last_of y ys

pub All-last : (P : ℕ → Type 0) (x : ℕ) (xs : List ℕ) → All P (x ∷ xs) → P (last_of x xs)
All-last P x [] h = h.0
All-last P x (y ∷ ys) h = All-last P y ys h.1

last_from-stop :
    (fuel : ℕ) (nexts : ℕ → ℕ) (x : ℕ) → nexts x ≡ 0 → last_from (suc fuel) nexts x ≡ ok x
unfolding last_from
last_from-stop fuel nexts x e = rw e refl

last_from-step :
    (fuel : ℕ) (nexts : ℕ → ℕ) (x y : ℕ)
    → nexts x ≡ y
    → 0 < y
    → last_from (suc fuel) nexts x ≡ last_from fuel nexts y
unfolding last_from
last_from-step fuel nexts x y e pos = ground arith

-- The loop finds the last node, within a step for each.
pub last_from-last :
    (fuel : ℕ) (nexts : ℕ → ℕ) (p x : ℕ) (xs : List ℕ)
    → length xs < fuel
    → Chain nexts p (x ∷ xs)
    → last_from fuel nexts x ≡ ok (last_of x xs)
last_from-last zero nexts p x xs h c = absurd (omega arith)
last_from-last (suc fuel) nexts p x [] h c = last_from-stop fuel nexts x c.3
last_from-last (suc fuel) nexts p x (y ∷ ys) h c =
    last_from-step fuel nexts x y c.3.0 c.3.1
    ∙ last_from-last fuel nexts (nexts x) y ys (omega arith) c.3

-- Behind the last node a node follows that was in none.
pub Chain-append :
    (nexts : ℕ → ℕ) (p x : ℕ) (xs : List ℕ) (new : ℕ)
    → Chain nexts p (x ∷ xs)
    → 0 < new
    → nexts new ≡ 0
    → All (λ y. (y == new) ≡ false) (x ∷ xs)
    → Chain (update nexts (last_of x xs) new) p ((x ∷ xs) ++ new ∷ [])
Chain-append nexts p x [] new c pos ends out =
    (c.0, c.1, (ground (arith, out.0), tt), (ground arith, pos, tt, ground (arith, ends, out.0)))
Chain-append nexts p x (y ∷ ys) new c pos ends out =
    let apart : (x == last_of y ys) ≡ false = ground (arith, All-last _ y ys c.2) in
    (
      c.0,
      c.1,
      All-append _ (y ∷ ys) (new ∷ []) c.2 (ground (arith, out.0), tt),
      rw apart (Chain-append nexts (nexts x) y ys new c.3 pos ends out.1),
    )

-- The list without its node number `j`, from 0, that node, and the node in front of it, where
-- `prev` is the one in front of the list.
abbrev pub drop_at : ℕ → List ℕ → List ℕ
drop_at j [] = []
drop_at zero (x ∷ xs) = xs
drop_at (suc j) (x ∷ xs) = x ∷ drop_at j xs

abbrev pub node_at : ℕ → List ℕ → ℕ
node_at j [] = 0
node_at zero (x ∷ xs) = x
node_at (suc j) (x ∷ xs) = node_at j xs

abbrev pub before : ℕ → ℕ → List ℕ → ℕ
before prev j [] = prev
before prev zero (x ∷ xs) = prev
before prev (suc j) (x ∷ xs) = before x j xs

walk-stop :
    (fuel : ℕ) (nexts : ℕ → ℕ) (prev curr n t : ℕ)
    → (n == t) ≡ true
    → walk (suc fuel) nexts prev curr n t ≡ ok (prev, curr)
unfolding walk
walk-stop fuel nexts prev curr n t e = rw e refl

walk-step :
    (fuel : ℕ) (nexts : ℕ → ℕ) (prev curr n i : ℕ)
    → (n == i) ≡ false
    → 0 < curr
    → walk (suc fuel) nexts prev curr n i ≡ walk fuel nexts curr (nexts curr) (n + 1) i
unfolding walk
walk-step fuel nexts prev curr n i ne pos = ground arith

walk-null :
    (fuel : ℕ) (nexts : ℕ → ℕ) (prev n i : ℕ)
    → (n == i) ≡ false
    → walk (suc fuel) nexts prev 0 n i ≡ null
unfolding walk
walk-null fuel nexts prev n i ne = ground arith

-- The walk to a node of the list ends there, with the node in front of it.
pub walk-node :
    (fuel : ℕ) (nexts : ℕ → ℕ) (prev p n j t : ℕ) (xs : List ℕ)
    → Chain nexts p xs
    → j < length xs
    → j < fuel
    → n + j ≡ t
    → walk fuel nexts prev p n t ≡ ok (before prev j xs, node_at j xs)
walk-node fuel nexts prev p n j t [] c le enough e = absurd (omega arith)
walk-node zero nexts prev p n j t (x ∷ xs) c le enough e = absurd (omega arith)
walk-node (suc fuel) nexts prev p n zero t (x ∷ xs) c le enough e =
    let here : (n == t) ≡ true = ground arith in rw c.0 (walk-stop fuel nexts prev x n t here)
walk-node (suc fuel) nexts prev p n (suc j) t (x ∷ xs) c le enough e =
    let far : (n == t) ≡ false = ground arith in
    rw c.0 (
      walk-step fuel nexts prev x n t far c.1
      ∙ walk-node fuel nexts x (nexts x) (n + 1) j t xs c.3 (omega arith) (omega arith)
          (omega arith))

-- The walk to the number behind the last node stops at `NULL`.
pub walk-beyond :
    (fuel : ℕ) (nexts : ℕ → ℕ) (prev p n t : ℕ) (xs : List ℕ)
    → Chain nexts p xs
    → length xs < fuel
    → n + length xs ≡ t
    → walk fuel nexts prev p n t ≡ ok (last_of prev xs, 0)
walk-beyond zero nexts prev p n t xs c enough e = absurd (omega arith)
walk-beyond (suc fuel) nexts prev p n t [] c enough e =
    let here : (n == t) ≡ true = ground arith in rw c (walk-stop fuel nexts prev 0 n t here)
walk-beyond (suc fuel) nexts prev p n t (x ∷ xs) c enough e =
    let far : (n == t) ≡ false = ground arith in
    rw c.0 (
      walk-step fuel nexts prev x n t far c.1
      ∙ walk-beyond fuel nexts x (nexts x) (n + 1) t xs c.3 (omega arith) (omega arith))

pub All-drop : (P : ℕ → Type 0) (j : ℕ) (xs : List ℕ) → All P xs → All P (drop_at j xs)
All-drop P j [] h = tt
All-drop P zero (x ∷ xs) h = h.1
All-drop P (suc j) (x ∷ xs) h = (h.0, All-drop P j xs h.1)

pub All-before : (P : ℕ → Type 0) (x j : ℕ) (xs : List ℕ) → P x → All P xs → P (before x j xs)
All-before P x j [] h hs = h
All-before P x zero (y ∷ ys) h hs = h
All-before P x (suc j) (y ∷ ys) h hs = All-before P y j ys hs.0 hs.1

-- Unlinking a node behind the first leaves the other nodes.
pub Chain-drop :
    (nexts : ℕ → ℕ) (p x j : ℕ) (xs : List ℕ)
    → Chain nexts p (x ∷ xs)
    → j < length xs
    → Chain (update nexts (before x j xs) (nexts (node_at j xs))) p (x ∷ drop_at j xs)
Chain-drop nexts p x j [] c le = absurd (omega arith)
Chain-drop nexts p x zero (y ∷ ys) c le =
    let outside : All (λ z. (z == x) ≡ false) ys = c.2.1 in
    let start : (x == x) ≡ true = ground arith in
    (c.0, c.1, outside, rw start (Chain-update nexts (nexts y) ys x (nexts y) outside c.3.3))
Chain-drop nexts p x (suc j) (y ∷ ys) c le =
    let apart : (x == before y j ys) ≡ false =
      ground (arith, All-before (λ z. (z == x) ≡ false) y j ys c.2.0 c.2.1) in
    (
      c.0,
      c.1,
      (c.2.0, All-drop _ j ys c.2.1),
      rw apart (Chain-drop nexts (nexts x) y j ys c.3 (omega arith)),
    )
