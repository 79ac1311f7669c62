-- ===== src/Dinners/Nodes.antt =====
-- The nodes of a list of dinners by their numbers, concur/concurrent3/3way.c.
use mathlib.Core.Path.{subst}
use cs.Common.{
  ltb, Bool-cases, inl, inr, ℕ, zero, suc, ◌≤◌, ◌<◌, ◌≡◌, refl, false, arith, ◌==◌, update, List,
  [], ◌∷◌, ◌++◌, length, All,
}
use cs.Dinners.{State, link_node, unlink_node}
use cs.Dinners.Chain.{
  Chain, Chain-pos, last_of, All-last, Chain-append, Chain-drop, All-before, drop_at, node_at,
  before,
}
use cs.Dinners.Safe.{node_at-pos}

pub node_at-first : (nexts : ℕ → ℕ) (p : ℕ) (xs : List ℕ) → Chain nexts p xs → p ≡ node_at 0 xs
node_at-first nexts p [] c = c
node_at-first nexts p (x ∷ xs) c = c.0

-- Each node links to the one with the next number, the last one to `NULL`.
pub node_at-next :
    (nexts : ℕ → ℕ) (p k : ℕ) (xs : List ℕ)
    → Chain nexts p xs
    → k < length xs
    → nexts (node_at k xs) ≡ node_at (suc k) xs
node_at-next nexts p k [] c lt = absurd (omega arith)
node_at-next nexts p zero (x ∷ xs) c lt = node_at-first nexts (nexts x) xs c.3
node_at-next nexts p (suc k) (x ∷ xs) c lt = node_at-next nexts (nexts x) k xs c.3 (omega arith)

pub node_at-last : (q k : ℕ) (xs : List ℕ) → suc k ≡ length xs → node_at k xs ≡ last_of q xs
node_at-last q k [] e = absurd (omega arith)
node_at-last q zero (x ∷ []) e = refl
node_at-last q (suc k) (x ∷ []) e = absurd (omega arith)
node_at-last q zero (x ∷ y ∷ ys) e = absurd (omega arith)
node_at-last q (suc k) (x ∷ y ∷ ys) e = node_at-last x k (y ∷ ys) (omega arith)

pub node_at-append : (k : ℕ) (xs ys : List ℕ) → k < length xs → node_at k (xs ++ ys) ≡ node_at k xs
node_at-append k [] ys lt = absurd (omega arith)
node_at-append zero (x ∷ xs) ys lt = refl
node_at-append (suc k) (x ∷ xs) ys lt = node_at-append k xs ys (omega arith)

pub before-next : (q k : ℕ) (xs : List ℕ) → k < length xs → before q (suc k) xs ≡ node_at k xs
before-next q k [] lt = absurd (omega arith)
before-next q zero (x ∷ []) lt = refl
before-next q zero (x ∷ y ∷ ys) lt = refl
before-next q (suc k) (x ∷ xs) lt = before-next x k xs (omega arith)

pub All-node_at :
    (P : ℕ → Type 0) (k : ℕ) (xs : List ℕ) → All P xs → k < length xs → P (node_at k xs)
All-node_at P k [] h lt = absurd (omega arith)
All-node_at P zero (x ∷ xs) h lt = h.0
All-node_at P (suc k) (x ∷ xs) h lt = All-node_at P k xs h.1 (omega arith)

-- A node is not among the others.
pub drop_at-away :
    (nexts : ℕ → ℕ) (p k : ℕ) (xs : List ℕ)
    → Chain nexts p xs
    → k < length xs
    → All (λ y. (y == node_at k xs) ≡ false) (drop_at k xs)
drop_at-away nexts p k [] c lt = absurd (omega arith)
drop_at-away nexts p zero (x ∷ xs) c lt = c.2
drop_at-away nexts p (suc k) (x ∷ xs) c lt =
    let differs = All-node_at (λ y. (y == x) ≡ false) k xs c.2 (omega arith) in
    (ground (arith, differs), drop_at-away nexts (nexts x) k xs c.3 (omega arith))

link_node-real :
    (st : State) (last new : ℕ)
    → 0 < last
    → record st { next_dinner = update st.next_dinner last new } ≡ link_node st last new
unfolding link_node
link_node-real st last new pos = let real : (last == 0) ≡ false = ground arith in rw real refl

unlink_node-real :
    (st : State) (prev curr : ℕ)
    → 0 < prev
    → record st { next_dinner = update st.next_dinner prev (st.next_dinner curr) }
      ≡ unlink_node st prev curr
unfolding unlink_node
unlink_node-real st prev curr pos = let real : (prev == 0) ≡ false = ground arith in rw real refl

-- The list in memory.
abbrev pub Nodes : State → List ℕ → Type 0
Nodes st xs = Chain st.next_dinner st.turkey_dinners xs

-- The list after the node `new` was linked behind its last one.
pub link_node-Chain :
    (st : State) (new : ℕ) (xs : List ℕ)
    → Nodes st xs
    → 0 < new
    → st.next_dinner new ≡ 0
    → All (λ y. (y == new) ≡ false) xs
    → Nodes (link_node st (last_of 0 xs) new) (xs ++ new ∷ [])
unfolding link_node
link_node-Chain st new [] c pos ends out = (refl, pos, tt, ends)
link_node-Chain st new (x ∷ xs) c pos ends out =
    let positive = All-last _ x xs (Chain-pos st.next_dinner st.turkey_dinners (x ∷ xs) c) in
    subst (λ s. Nodes s ((x ∷ xs) ++ new ∷ [])) (link_node-real st (last_of x xs) new positive)
      (Chain-append st.next_dinner st.turkey_dinners x xs new c pos ends out)

-- The list after its node number `k` was unlinked.
pub unlink_node-Chain :
    (st : State) (k : ℕ) (xs : List ℕ)
    → Nodes st xs
    → k < length xs
    → Nodes (unlink_node st (before 0 k xs) (node_at k xs)) (drop_at k xs)
unfolding unlink_node
unlink_node-Chain st k [] c lt = absurd (omega arith)
unlink_node-Chain st zero (x ∷ xs) c lt = c.3
unlink_node-Chain st (suc k) (x ∷ xs) c lt =
    let positive =
      All-before (λ y. 0 < y) x k xs c.1 (Chain-pos st.next_dinner (st.next_dinner x) xs c.3) in
    subst (λ s. Nodes s (x ∷ drop_at k xs))
      (unlink_node-real st (before x k xs) (node_at k xs) positive)
      (Chain-drop st.next_dinner st.turkey_dinners x k xs c (omega arith))

-- A write of `unlink_node` or `link_node` changes the link of one node only.
pub link_node-other :
    (st : State) (last new y : ℕ)
    → (y == last) ≡ false
    → (link_node st last new).next_dinner y ≡ st.next_dinner y
unfolding link_node
link_node-other st last new y ne = ground arith

pub unlink_node-other :
    (st : State) (prev curr y : ℕ)
    → (y == prev) ≡ false
    → (unlink_node st prev curr).next_dinner y ≡ st.next_dinner y
unfolding unlink_node
unlink_node-other st prev curr y ne = ground arith

pub count-nodes :
    (st : State) (a b : ℕ)
    → ((link_node st a b).dinner_count ≡ st.dinner_count)
      × ((unlink_node st a b).dinner_count ≡ st.dinner_count)
unfolding link_node unlink_node
count-nodes st a b = (ground arith, ground arith)

node_at-beyond : (k : ℕ) (xs : List ℕ) → length xs ≤ k → node_at k xs ≡ 0
node_at-beyond k [] le = refl
node_at-beyond zero (x ∷ xs) le = absurd (omega arith)
node_at-beyond (suc k) (x ∷ xs) le = node_at-beyond k xs (omega arith)

-- `NULL` stands behind the last node, and only there.
pub node_at-end : (k : ℕ) (xs : List ℕ) → All (λ y. 0 < y) xs → node_at k xs ≡ 0 → length xs ≤ k
node_at-end k xs positive e = elim (Bool-cases (ltb k (length xs))) [
  | inl inside ↦ absurd (omega (arith, node_at-pos k xs positive (ground arith), e))
  | inr outside ↦ ground arith
]

pub node_at-inside : (k : ℕ) (xs : List ℕ) → 0 < node_at k xs → k < length xs
node_at-inside k xs pos = elim (Bool-cases (ltb k (length xs))) [
  | inl inside ↦ ground arith
  | inr outside ↦ absurd (omega (arith, node_at-beyond k xs (ground arith), pos))
]

-- The last node of a list is not one outside it.
pub last_of-away :
    (n : ℕ) (xs : List ℕ) → 0 < n → All (λ y. (y == n) ≡ false) xs → (n == last_of 0 xs) ≡ false
last_of-away n xs pos away =
    let apart : (last_of 0 xs == n) ≡ false =
      All-last (λ y. (y == n) ≡ false) 0 xs (ground arith, away) in
    ground (arith, apart)
