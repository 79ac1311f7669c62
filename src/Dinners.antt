-- ===== src/Dinners.antt =====
-- The list of dinners of searchers, inserters and deleters, concur/concurrent3/3way.c: the linked
-- list in memory, and one turn of each kind of thread with its locks held. Address 0 is `NULL`.
mod Chain
mod Safe
mod Nodes
mod Turns
mod Threads
mod Tests
use cs.Common.{
  ℕ, zero, suc, ◌+◌, ◌-◌, ◌*◌, ◌/◌, Bool, Option, none, some, ltb, ◌==◌, if◌then◌else◌, update,
}

-- `struct TurkeyDinner` by address, `turkey_dinners` and `dinner_count`
pub record State : Type 0 where
  pub number_guests : ℕ → ℕ
  pub next_dinner : ℕ → ℕ
  pub turkey_dinners : ℕ
  pub dinner_count : ℕ

-- A result, a read through `NULL`, or a loop that outlives its fuel.
pub data Run (A : Type 0) : Type 0 where
  ok : A → Run A
  null : Run A
  endless : Run A

-- `random_range` for the value `r` of `random()`, with `RAND_MAX` = 2147483647, and exact
-- quotients in place of doubles.
abbrev pub rand_max : ℕ
rand_max = 2147483647

unfoldable pub random_range : (r low high : ℕ) → ℕ
random_range r low high = low + (high + 1 - low) * r / rand_max

-- The loop of `find_last_dinner`
unfoldable pub last_from : (fuel : ℕ) → (ℕ → ℕ) → ℕ → Run ℕ
last_from zero nexts p = endless
last_from (suc fuel) nexts p =
    let rest = last_from fuel nexts (nexts p) in if nexts p == 0 then ok p else rest

unfoldable pub find_last_dinner : (fuel : ℕ) → (ℕ → ℕ) → (first : ℕ) → Run ℕ
find_last_dinner fuel nexts first = if first == 0 then ok 0 else last_from fuel nexts first

-- The write of `add_dinner` that makes the node `new` follow `last`, and the whole of its writes.
unfoldable pub link_node : State → (last new : ℕ) → State
link_node st last new =
    if last == 0
    then record st { turkey_dinners = new }
    else record st { next_dinner = update st.next_dinner last new }

unfoldable pub link_dinner : State → (last new : ℕ) → State
unfolding link_node
link_dinner st last new = record (link_node st last new) { dinner_count = st.dinner_count + 1 }

unfoldable pub add_dinner : (fuel : ℕ) → State → (new : ℕ) → Run State
add_dinner fuel st new = elim (find_last_dinner fuel st.next_dinner st.turkey_dinners) [
  | ok last ↦ ok (link_dinner st last new)
  | null ↦ null
  | endless ↦ endless
]

-- The loop of `cancel_dinner` and `find_dinner`: `prev_dinner` and `curr_dinner` at its end.
unfoldable pub walk : (fuel : ℕ) → (ℕ → ℕ) → (prev curr count index : ℕ) → Run (ℕ × ℕ)
walk zero nexts prev curr count index = endless
walk (suc fuel) nexts prev curr count index =
    let rest = walk fuel nexts curr (nexts curr) (count + 1) index in
    if count == index then ok (prev, curr) else if curr == 0 then null else rest

unfoldable pub unlink_node : State → (prev curr : ℕ) → State
unlink_node st prev curr =
    if prev == 0
    then record st { turkey_dinners = st.next_dinner curr }
    else record st { next_dinner = update st.next_dinner prev (st.next_dinner curr) }

unfoldable pub unlink_dinner : State → (prev curr : ℕ) → State
unfolding unlink_node
unlink_dinner st prev curr = record (unlink_node st prev curr) {
  dinner_count = st.dinner_count - 1;
}

-- `cancel_dinner`: the new state, and the node that is freed.
unfoldable pub cancel_dinner : (fuel : ℕ) → State → (index : ℕ) → Run (State × ℕ)
cancel_dinner fuel st index = elim (walk fuel st.next_dinner 0 st.turkey_dinners 1 index) [
  | ok (prev, curr) ↦ if curr == 0 then null else ok (unlink_dinner st prev curr, curr)
  | null ↦ null
  | endless ↦ endless
]

-- `find_dinner` does not read the node that it stops at.
unfoldable pub find_dinner : (fuel : ℕ) → State → (index : ℕ) → Run Bool
find_dinner fuel st index = elim (walk fuel st.next_dinner 0 st.turkey_dinners 1 index) [
  | ok _ ↦ ok Bool.true
  | null ↦ null
  | endless ↦ endless
]

-- One turn of a searcher, of an inserter with the node `new` from `malloc`, and of a deleter, with
-- the value `r` of `random()`. The fuel is what each loop may take.
unfoldable pub search_turn : (fuel r : ℕ) → State → Run (Option Bool)
search_turn fuel r st =
    if ltb 0 st.dinner_count
    then elim (find_dinner fuel st (random_range r 1 st.dinner_count)) [
      | ok found ↦ ok (some found)
      | null ↦ null
      | endless ↦ endless
    ]
    else ok none

unfoldable pub insert_turn : (fuel new : ℕ) → State → Run State
insert_turn fuel new st =
    add_dinner fuel
      (record st {
        number_guests = update st.number_guests new 4;
        next_dinner = update st.next_dinner new 0;
      })
      new

unfoldable pub delete_turn : (fuel r : ℕ) → State → Run (State × Option ℕ)
delete_turn fuel r st =
    if ltb 0 st.dinner_count
    then elim (cancel_dinner fuel st (random_range r 1 st.dinner_count)) [
      | ok (st', freed) ↦ ok (st', some freed)
      | null ↦ null
      | endless ↦ endless
    ]
    else ok (st, none)
