-- ===== src/Dinners/Safe.antt =====
-- `add_dinner`, `cancel_dinner` and `find_dinner` on a list of dinners,
-- concur/concurrent3/3way.c.
use cs.Common.{
  ℕ, zero, suc, refl, ◌+◌, ◌≤◌, ◌<◌, ◌≡◌, true, false, arith, ◌==◌, List, [], ◌∷◌, ◌++◌, length,
  length-append, All,
}
use cs.Dinners.{
  State, ok, find_last_dinner, link_dinner, add_dinner, walk, unlink_dinner, unlink_node, link_node,
  cancel_dinner, find_dinner,
}
use cs.Dinners.Chain.{
  Chain, Chain-pos, last_of, All-last, last_from-last, Chain-append, drop_at, node_at, before,
  All-before, walk-node, Chain-drop,
}

-- The list holds the nodes at the addresses `xs`, and `dinner_count` is their number.
pub record IsDinners (st : State) (xs : List ℕ) : Type 0 where
  pub chain : Chain st.next_dinner st.turkey_dinners xs
  pub count : st.dinner_count ≡ length xs

add_dinner-run :
    (fuel : ℕ) (st : State) (new last : ℕ)
    → find_last_dinner fuel st.next_dinner st.turkey_dinners ≡ ok last
    → add_dinner fuel st new ≡ ok (link_dinner st last new)
unfolding add_dinner
add_dinner-run fuel st new last e = ground arith

find_last_dinner-last :
    (fuel : ℕ) (nexts : ℕ → ℕ) (p x : ℕ) (xs : List ℕ)
    → length xs < fuel
    → Chain nexts p (x ∷ xs)
    → find_last_dinner fuel nexts p ≡ ok (last_of x xs)
unfolding find_last_dinner
find_last_dinner-last fuel nexts p x xs h c =
    let real : (p == 0) ≡ false = ground (arith, c.0, c.1) in
    rw (real, c.0) (last_from-last fuel nexts p x xs h c)

find_last_dinner-empty :
    (fuel : ℕ) (nexts : ℕ → ℕ) (p : ℕ) → p ≡ 0 → find_last_dinner fuel nexts p ≡ ok 0
unfolding find_last_dinner
find_last_dinner-empty fuel nexts p e = rw e refl

-- `add_dinner` of a node that is in no list ends within a step for each node, reads through no
-- `NULL`, and puts the node at the end of the list, the empty one included.
pub add_dinner_lem :
    (fuel : ℕ) (st : State) (new : ℕ) (xs : List ℕ)
    → IsDinners st xs
    → 0 < new
    → st.next_dinner new ≡ 0
    → All (λ y. (y == new) ≡ false) xs
    → length xs ≤ fuel
    → (st' : State) × (add_dinner fuel st new ≡ ok st') × IsDinners st' (xs ++ new ∷ [])
unfolding link_dinner link_node
add_dinner_lem fuel st new [] d pos ends out h = (
  link_dinner st 0 new,
  add_dinner-run fuel st new 0
      (find_last_dinner-empty fuel st.next_dinner st.turkey_dinners d.chain),
  record { chain = (refl, pos, tt, ends); count = omega (arith, d.count) },
)
add_dinner_lem fuel st new (x ∷ xs) d pos ends out h =
    let last = last_of x xs in
    let positive = All-last _ x xs (Chain-pos st.next_dinner st.turkey_dinners (x ∷ xs) d.chain) in
    let real : (last == 0) ≡ false = ground (arith, positive) in
    (
      link_dinner st last new,
      add_dinner-run fuel st new last
          (find_last_dinner-last fuel st.next_dinner st.turkey_dinners x xs (omega arith) d.chain),
      rw real (record {
        chain = Chain-append st.next_dinner st.turkey_dinners x xs new d.chain pos ends out;
        count = omega (arith, d.count, length-append xs (new ∷ []));
      }),
    )

cancel_dinner-run :
    (fuel : ℕ) (st : State) (index prev curr : ℕ)
    → walk fuel st.next_dinner 0 st.turkey_dinners 1 index ≡ ok (prev, curr)
    → 0 < curr
    → cancel_dinner fuel st index ≡ ok (unlink_dinner st prev curr, curr)
unfolding cancel_dinner
cancel_dinner-run fuel st index prev curr e pos = ground arith

find_dinner-run :
    (fuel : ℕ) (st : State) (index prev curr : ℕ)
    → walk fuel st.next_dinner 0 st.turkey_dinners 1 index ≡ ok (prev, curr)
    → find_dinner fuel st index ≡ ok true
unfolding find_dinner
find_dinner-run fuel st index prev curr e = ground arith

pub node_at-pos : (j : ℕ) (xs : List ℕ) → All (λ y. 0 < y) xs → j < length xs → 0 < node_at j xs
node_at-pos j [] h lt = absurd (omega arith)
node_at-pos zero (x ∷ xs) h lt = h.0
node_at-pos (suc j) (x ∷ xs) h lt = node_at-pos j xs h.1 (omega arith)

pub length-drop_at : (j : ℕ) (xs : List ℕ) → j < length xs → length (drop_at j xs) + 1 ≡ length xs
length-drop_at j [] lt = absurd (omega arith)
length-drop_at zero (x ∷ xs) lt = omega arith
length-drop_at (suc j) (x ∷ xs) lt = omega (arith, length-drop_at j xs (omega arith))

pub unlink_dinner-IsDinners :
    (st : State) (j : ℕ) (xs : List ℕ)
    → IsDinners st xs
    → j < length xs
    → IsDinners (unlink_dinner st (before 0 j xs) (node_at j xs)) (drop_at j xs)
unfolding unlink_dinner unlink_node
unlink_dinner-IsDinners st j [] d lt = absurd (omega arith)
unlink_dinner-IsDinners st zero (x ∷ xs) d lt = record {
  chain = d.chain.3;
  count = omega (arith, d.count);
}
unlink_dinner-IsDinners st (suc j) (x ∷ xs) d lt =
    let pos =
      All-before (λ y. 0 < y) x j xs d.chain.1
        (Chain-pos st.next_dinner (st.next_dinner x) xs d.chain.3) in
    let real : (before x j xs == 0) ≡ false = ground (arith, pos) in
    rw real (record {
      chain = Chain-drop st.next_dinner st.turkey_dinners x j xs d.chain (omega arith);
      count = omega (arith, d.count, length-drop_at j xs (omega arith));
    })

-- On a whole list whose count is its length, `cancel_dinner` and `find_dinner` of a number from
-- 1 to the length end within a step for each node and read through no `NULL`. `cancel_dinner`
-- frees the node of that number, the other nodes stay in order, and `dinner_count` stays their
-- number.
pub cancel_dinner_lem :
    (fuel : ℕ) (st : State) (j : ℕ) (xs : List ℕ)
    → IsDinners st xs
    → j < length xs
    → length xs ≤ fuel
    → (find_dinner fuel st (j + 1) ≡ ok true)
      × ((st' : State) × (cancel_dinner fuel st (j + 1) ≡ ok (st', node_at j xs))
          × IsDinners st' (drop_at j xs))
cancel_dinner_lem fuel st j xs d lt enough =
    let arrives : walk fuel st.next_dinner 0 st.turkey_dinners 1 (j + 1)
        ≡ ok (before 0 j xs, node_at j xs) =
      walk-node fuel st.next_dinner 0 st.turkey_dinners 1 j (j + 1) xs d.chain lt (omega arith)
        (omega arith) in
    let pos = node_at-pos j xs (Chain-pos st.next_dinner st.turkey_dinners xs d.chain) lt in
    (
      find_dinner-run fuel st (j + 1) (before 0 j xs) (node_at j xs) arrives,
      (
        unlink_dinner st (before 0 j xs) (node_at j xs),
        cancel_dinner-run fuel st (j + 1) (before 0 j xs) (node_at j xs) arrives pos,
        unlink_dinner-IsDinners st j xs d lt,
      ),
    )
