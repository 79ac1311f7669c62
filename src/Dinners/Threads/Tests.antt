-- ===== src/Dinners/Threads/Tests.antt =====
-- Two searchers, an inserter and a deleter beside each other.
use cs.Common.{ℕ, ◌+◌, ◌<◌, ◌≡◌, refl, sum, List, length, arith, false}
use cs.Dinners.{State, rand_max, link_node}
use cs.Dinners.Nodes.{Nodes}
use cs.Dinners.Threads.{
  System, s_crashed, i_crashed, d_crashed, searcher_step, inserter_step, deleter_step, init,
  Reachable, start, by_searcher, by_inserter,
}
use cs.Dinners.Threads.Locks.{IsLocked}
use cs.Dinners.Threads.Locks.Held.{Reachable-IsLocked}
use cs.Dinners.Threads.Whole.{linked, unlinked}
use cs.Dinners.Threads.Never.{never_null}

abbrev memory : State
memory = record {
  number_guests = λ _. 0;
  next_dinner = λ _. 7;
  turkey_dinners = 5;
  dinner_count = 9;
}

abbrev searcher_at : (i r : ℕ) → System → System
searcher_at i r sys = searcher_step i r (sys.searcher i) sys

abbrev inserter_at : (new : ℕ) → System → System
inserter_at new sys = inserter_step 0 new (sys.inserter 0) sys

abbrev deleter_at : (r : ℕ) → System → System
deleter_at r sys = deleter_step 0 r (sys.deleter 0) sys

abbrev Reached : System → Type 0
Reached = Reachable 2 1 1 rand_max

inserts_on :
    (new : ℕ) (sys : System)
    → 0 < new
    → sys.allocated new ≡ false
    → Reached sys
    → Reached (inserter_at new sys)
inserts_on new sys pos fresh r = by_inserter sys 0 new (omega arith) pos fresh r

searches_on : (r : ℕ) (sys : System) → r < rand_max → Reached sys → Reached (searcher_at 0 r sys)
searches_on r sys small q = by_searcher sys 0 r (omega arith) small q

-- The inserter has linked node 40 and stands before `dinner_count++`.
abbrev linked_once : System
linked_once = inserter_at 50 (inserter_at 50 (inserter_at 50 (inserter_at 40 (init memory))))

abbrev inserted : System
inserted = inserter_at 50 (inserter_at 50 linked_once)

inserted_Reachable : Reached inserted
unfolding init inserter_step link_node
inserted_Reachable =
    let m = init memory in
    let m1 = inserter_at 40 m in
    let m2 = inserter_at 50 m1 in
    let m3 = inserter_at 50 m2 in
    let r1 = inserts_on 40 m (omega arith) refl (start memory) in
    let r2 = inserts_on 50 m1 (omega arith) refl r1 in
    let r3 = inserts_on 50 m2 (omega arith) refl r2 in
    let r4 = inserts_on 50 m3 (omega arith) refl r3 in
    let r5 = inserts_on 50 linked_once (omega arith) refl r4 in
    inserts_on 50 (inserter_at 50 linked_once) (omega arith) refl r5

one_dinner : inserted.dinners.dinner_count ≡ 1
unfolding init inserter_step link_node
one_dinner = refl

-- A searcher has its read lock and its number, while the inserter gets its next node.
abbrev searching : System
searching = inserter_at 60 (searcher_at 0 5 (searcher_at 0 5 (searcher_at 0 5 inserted)))

searching_Reachable : Reached searching
unfolding init inserter_step link_node searcher_step
searching_Reachable =
    let s1 = searcher_at 0 5 inserted in
    let s2 = searcher_at 0 5 s1 in
    let r1 = searches_on 5 inserted (omega arith) inserted_Reachable in
    let r2 = searches_on 5 s1 (omega arith) r1 in
    let r3 = searches_on 5 s2 (omega arith) r2 in
    inserts_on 60 (searcher_at 0 5 s2) (omega arith) refl r3

reader : searching.readers ≡ 1
unfolding init inserter_step link_node searcher_step
reader = refl

Reachable-IsLocked_example : IsLocked 2 1 1 searching
Reachable-IsLocked_example = Reachable-IsLocked 2 1 1 rand_max searching searching_Reachable

never_null_example :
    ((i : ℕ) → i < 2 → ¬ (searching.searcher i ≡ s_crashed))
    × ((i : ℕ) → i < 1 → ¬ (searching.inserter i ≡ i_crashed))
    × ((j : ℕ) → j < 1 → ¬ (searching.deleter j ≡ d_crashed))
    × (xs : List ℕ) × Nodes searching.dinners xs
    × (searching.dinners.dinner_count + sum linked 1 searching.inserter
        ≡ length xs + sum unlinked 1 searching.deleter)
never_null_example = never_null 2 1 1 searching searching_Reachable
