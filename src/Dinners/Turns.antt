-- ===== src/Dinners/Turns.antt =====
-- Turns of inserters, deleters and searchers, with the numbers that `random_range` draws.
use native.Mathlib.Nat.{mul-le-mul_left}
use cs.Common.{
  ℕ, refl, ◌+◌, ◌-◌, ◌*◌, ◌≤◌, ◌<◌, ◌≡◌, ◌⊎◌, inl, inr, true, false, arith, ◌==◌, update, List, [],
  ◌∷◌, ◌++◌, length, All, none, some,
}
use cs.Dinners.{
  State, ok, null, walk, rand_max, random_range, cancel_dinner, find_dinner, insert_turn,
  delete_turn, search_turn,
}
use cs.Dinners.Chain.{Chain-update, last_of, drop_at, node_at, walk-beyond}
use cs.Dinners.Safe.{IsDinners, add_dinner_lem, cancel_dinner_lem}

mul_mono : (n r m : ℕ) → r < m → n * r + n ≤ n * m
mul_mono n r m h = omega (arith, mul-le-mul_left n h)

-- For a value below `RAND_MAX` and end points in order, the number that `random_range` draws lies
-- between them.
pub random_range-between :
    (r low high : ℕ)
    → low ≤ high
    → r < rand_max
    → (low ≤ random_range r low high) × (random_range r low high ≤ high)
unfolding random_range
random_range-between r low high le small =
    let bound = mul_mono (high + 1 - low) r rand_max small in (omega arith, omega (arith, bound))

-- At `RAND_MAX` it lies behind them.
random_range-beyond : (low high : ℕ) → low ≤ high → random_range rand_max low high ≡ high + 1
unfolding random_range
random_range-beyond low high le = omega arith

-- On a whole list whose count is its length: a turn of an inserter, with a node from `malloc`
-- that is not on the list, ends within a step for each node and puts the node at the end of the
-- list.
pub insert_turn_lem :
    (fuel new : ℕ) (st : State) (xs : List ℕ)
    → IsDinners st xs
    → 0 < new
    → All (λ y. (y == new) ≡ false) xs
    → length xs ≤ fuel
    → (st' : State) × (insert_turn fuel new st ≡ ok st') × IsDinners st' (xs ++ new ∷ [])
unfolding insert_turn
insert_turn_lem fuel new st xs d pos out enough =
    let st1 : State = record st {
      number_guests = update st.number_guests new 4;
      next_dinner = update st.next_dinner new 0;
    } in
    let d1 : IsDinners st1 xs = record {
      chain = Chain-update st.next_dinner st.turkey_dinners xs new 0 out d.chain;
      count = d.count;
    } in
    add_dinner_lem fuel st1 new xs d1 pos (ground arith) out enough

search_turn-run :
    (fuel r : ℕ) (st : State) (i : ℕ)
    → 0 < st.dinner_count
    → random_range r 1 st.dinner_count ≡ i
    → find_dinner fuel st i ≡ ok true
    → search_turn fuel r st ≡ ok (some true)
unfolding search_turn
search_turn-run fuel r st i some_left draws found = ground arith

delete_turn-run :
    (fuel r : ℕ) (st : State) (i : ℕ) (st' : State) (freed : ℕ)
    → 0 < st.dinner_count
    → random_range r 1 st.dinner_count ≡ i
    → cancel_dinner fuel st i ≡ ok (st', freed)
    → delete_turn fuel r st ≡ ok (st', some freed)
unfolding delete_turn
delete_turn-run fuel r st i st' freed some_left draws done = ground arith

turns-empty :
    (fuel r : ℕ) (st : State)
    → st.dinner_count ≡ 0
    → (search_turn fuel r st ≡ ok none) × (delete_turn fuel r st ≡ ok (st, none))
unfolding search_turn delete_turn
turns-empty fuel r st e = (rw e refl, rw e refl)

-- On a whole list whose count is its length, turns of a searcher and of a deleter for a value of
-- `random()` below `RAND_MAX`: on an empty list they do nothing. Otherwise both draw the number
-- of a node, the searcher finds it, and the deleter frees it and leaves the other nodes in
-- order; both end within a step for each node and read through no `NULL`.
pub turns_lem :
    (fuel r : ℕ) (st : State) (xs : List ℕ)
    → IsDinners st xs
    → r < rand_max
    → length xs ≤ fuel
    → ((xs ≡ []) × (search_turn fuel r st ≡ ok none) × (delete_turn fuel r st ≡ ok (st, none)))
      ⊎ ((j : ℕ) × (j < length xs)
          × (search_turn fuel r st ≡ ok (some true))
          × (st' : State) × (delete_turn fuel r st ≡ ok (st', some (node_at j xs)))
          × IsDinners st' (drop_at j xs))
turns_lem fuel r st [] d small enough =
    let (searches, deletes) = turns-empty fuel r st d.count in inl (refl, searches, deletes)
turns_lem fuel r st (x ∷ xs) d small enough =
    let n = st.dinner_count in
    let some_left : 0 < n = omega (arith, d.count) in
    let (low, high) = random_range-between r 1 n some_left small in
    let j = random_range r 1 n - 1 in
    let draws : random_range r 1 n ≡ j + 1 = omega (arith, low) in
    let lt : j < length (x ∷ xs) = omega (arith, low, high, d.count) in
    let (found, (st', done, left)) = cancel_dinner_lem fuel st j (x ∷ xs) d lt enough in
    inr (
      j,
      lt,
      search_turn-run fuel r st (j + 1) some_left draws found,
      st',
      delete_turn-run fuel r st (j + 1) st' (node_at j (x ∷ xs)) some_left draws done,
      left,
    )

cancel_dinner-null :
    (fuel : ℕ) (st : State) (index prev : ℕ)
    → walk fuel st.next_dinner 0 st.turkey_dinners 1 index ≡ ok (prev, 0)
    → cancel_dinner fuel st index ≡ null
unfolding cancel_dinner
cancel_dinner-null fuel st index prev e = ground arith

delete_turn-null :
    (fuel r : ℕ) (st : State) (i : ℕ)
    → 0 < st.dinner_count
    → random_range r 1 st.dinner_count ≡ i
    → cancel_dinner fuel st i ≡ null
    → delete_turn fuel r st ≡ null
unfolding delete_turn
delete_turn-null fuel r st i some_left draws fails = ground arith

-- On a whole list whose count is its length, if `random()` returns `RAND_MAX` while there is a
-- dinner, the deleter's number lies behind the last node, and it reads through `NULL`.
pub delete_turn-beyond :
    (fuel : ℕ) (st : State) (xs : List ℕ)
    → IsDinners st xs
    → 0 < length xs
    → length xs < fuel
    → delete_turn fuel rand_max st ≡ null
delete_turn-beyond fuel st xs d some_left enough =
    let n = st.dinner_count in
    let pos : 0 < n = omega (arith, d.count) in
    let arrives =
      walk-beyond fuel st.next_dinner 0 st.turkey_dinners 1 (n + 1) xs d.chain enough
        (omega (arith, d.count)) in
    delete_turn-null fuel rand_max st (n + 1) pos (random_range-beyond 1 n pos)
      (cancel_dinner-null fuel st (n + 1) (last_of 0 xs) arrives)
