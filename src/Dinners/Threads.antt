-- ===== src/Dinners/Threads.antt =====
-- The threads of concur/concurrent3/3way.c beside each other, with their locks: one statement of
-- a thread, or one round of a loop, is a step. `malloc` is outside: it gives a node that is not
-- in use. Messages, `sleep` and the numbers of the threads are left out.
pub mod Locks
pub mod Whole
pub mod Keep
pub mod Search
pub mod Link
pub mod Insert
pub mod Unlink
pub mod Delete
pub mod Never
mod Tests
use cs.Common.{ℕ, zero, ◌+◌, ◌-◌, ◌<◌, ◌≡◌, Bool, true, false, ltb, ◌==◌, if◌then◌else◌, update}
use cs.Dinners.{State, random_range, link_node, unlink_node}

-- Where a `searcher` stands: before the read lock, the test, `random_range`, `find_dinner`, in its
-- loop, before the unlock, and behind a read through `NULL`.
pub data SearcherPc : Type 0 where
  s_resting s_testing s_drawing : SearcherPc
  s_looking : (to_find : ℕ) → SearcherPc
  s_walking : (curr count to_find : ℕ) → SearcherPc
  s_leaving s_crashed : SearcherPc

-- Where an `inserter` stands: before `malloc`, before the lock, in `find_last_dinner` and its loop,
-- before the two writes of `add_dinner`, before the unlock, and behind a read through `NULL`.
pub data InserterPc : Type 0 where
  i_resting : InserterPc
  i_waiting i_finding : (new : ℕ) → InserterPc
  i_scanning i_linking : (new last : ℕ) → InserterPc
  i_counting i_leaving i_crashed : InserterPc

-- Where a `deleter` stands: before its locks and the test between them, before `random_range`, in
-- `cancel_dinner` before and in its loop, before its three writes, before the unlocks, and behind a
-- read through `NULL`.
pub data DeleterPc : Type 0 where
  d_resting d_second d_testing d_third d_drawing : DeleterPc
  d_entering : (to_delete : ℕ) → DeleterPc
  d_walking : (prev curr count to_delete : ℕ) → DeleterPc
  d_unlinking : (prev curr : ℕ) → DeleterPc
  d_counting d_freeing : (curr : ℕ) → DeleterPc
  d_unlock_deleters d_unlock_inserters d_unlock_searchers d_crashed : DeleterPc

-- The list, the nodes in use, the locks (`searchers_lock` has its read locks and its write
-- lock), and the threads.
pub record System : Type 0 where
  pub dinners : State
  pub allocated : ℕ → Bool
  pub readers : ℕ
  pub writing : Bool
  pub inserters_lock : Bool
  pub deleters_lock : Bool
  pub searcher : ℕ → SearcherPc
  pub inserter : ℕ → InserterPc
  pub deleter : ℕ → DeleterPc

abbrev pub searcher_goes : System → ℕ → SearcherPc → System
searcher_goes sys i pc = record sys { searcher = update sys.searcher i pc }

abbrev pub inserter_goes : System → ℕ → InserterPc → System
inserter_goes sys i pc = record sys { inserter = update sys.inserter i pc }

abbrev pub deleter_goes : System → ℕ → DeleterPc → System
deleter_goes sys i pc = record sys { deleter = update sys.deleter i pc }

-- `searcher`, with the value `r` of `random()`
unfoldable pub searcher_step : (i r : ℕ) → SearcherPc → System → System
searcher_step i r s_resting sys =
    if sys.writing
    then sys
    else record (searcher_goes sys i s_testing) { readers = sys.readers + 1 }
searcher_step i r s_testing sys =
    searcher_goes sys i (if ltb 0 sys.dinners.dinner_count then s_drawing else s_leaving)
searcher_step i r s_drawing sys =
    searcher_goes sys i (s_looking (random_range r 1 sys.dinners.dinner_count))
searcher_step i r (s_looking to_find) sys =
    searcher_goes sys i (s_walking sys.dinners.turkey_dinners 1 to_find)
searcher_step i r (s_walking curr count to_find) sys = searcher_goes sys i (
    if count == to_find
    then s_leaving
    else if curr == 0
    then s_crashed
    else s_walking (sys.dinners.next_dinner curr) (count + 1) to_find)
searcher_step i r s_leaving sys = record (searcher_goes sys i s_resting) {
  readers = sys.readers - 1;
}
searcher_step i r s_crashed sys = sys

-- `inserter`, with the node `new` that `malloc` gives
unfoldable pub inserter_step : (i new : ℕ) → InserterPc → System → System
inserter_step i new i_resting sys =
    let st = sys.dinners in
    record (inserter_goes sys i (i_waiting new)) {
      dinners = record st {
        number_guests = update st.number_guests new 4;
        next_dinner = update st.next_dinner new 0;
      };
      allocated = update sys.allocated new true;
    }
inserter_step i new (i_waiting n) sys =
    if sys.inserters_lock
    then sys
    else record (inserter_goes sys i (i_finding n)) { inserters_lock = true }
inserter_step i new (i_finding n) sys = inserter_goes sys i (
    if sys.dinners.turkey_dinners == 0
    then i_linking n 0
    else i_scanning n sys.dinners.turkey_dinners)
inserter_step i new (i_scanning n last) sys =
    let following = sys.dinners.next_dinner last in
    inserter_goes sys i (
      if last == 0
      then i_crashed
      else if following == 0
      then i_linking n last
      else i_scanning n following)
inserter_step i new (i_linking n last) sys = record (inserter_goes sys i i_counting) {
  dinners = link_node sys.dinners last n;
}
inserter_step i new i_counting sys =
    let st = sys.dinners in
    record (inserter_goes sys i i_leaving) {
      dinners = record st { dinner_count = st.dinner_count + 1 };
    }
inserter_step i new i_leaving sys = record (inserter_goes sys i i_resting) {
  inserters_lock = false;
}
inserter_step i new i_crashed sys = sys

-- `deleter`, with the value `r` of `random()`
unfoldable pub deleter_step : (i r : ℕ) → DeleterPc → System → System
deleter_step i r d_resting sys =
    if sys.writing
    then sys
    else if sys.readers == 0
    then record (deleter_goes sys i d_second) { writing = true }
    else sys
deleter_step i r d_second sys =
    if sys.inserters_lock
    then sys
    else record (deleter_goes sys i d_testing) { inserters_lock = true }
deleter_step i r d_testing sys =
    deleter_goes sys i (if ltb 0 sys.dinners.dinner_count then d_third else d_unlock_inserters)
deleter_step i r d_third sys =
    if sys.deleters_lock
    then sys
    else record (deleter_goes sys i d_drawing) { deleters_lock = true }
deleter_step i r d_drawing sys =
    deleter_goes sys i (d_entering (random_range r 1 sys.dinners.dinner_count))
deleter_step i r (d_entering to_delete) sys =
    deleter_goes sys i (d_walking 0 sys.dinners.turkey_dinners 1 to_delete)
deleter_step i r (d_walking prev curr count to_delete) sys = deleter_goes sys i (
    if count == to_delete
    then d_unlinking prev curr
    else if curr == 0
    then d_crashed
    else d_walking curr (sys.dinners.next_dinner curr) (count + 1) to_delete)
deleter_step i r (d_unlinking prev curr) sys =
    if curr == 0
    then deleter_goes sys i d_crashed
    else record (deleter_goes sys i (d_counting curr)) {
      dinners = unlink_node sys.dinners prev curr;
    }
deleter_step i r (d_counting curr) sys =
    let st = sys.dinners in
    record (deleter_goes sys i (d_freeing curr)) {
      dinners = record st { dinner_count = st.dinner_count - 1 };
    }
deleter_step i r (d_freeing curr) sys = record (deleter_goes sys i d_unlock_deleters) {
  allocated = update sys.allocated curr false;
}
deleter_step i r d_unlock_deleters sys = record (deleter_goes sys i d_unlock_inserters) {
  deleters_lock = false;
}
deleter_step i r d_unlock_inserters sys = record (deleter_goes sys i d_unlock_searchers) {
  inserters_lock = false;
}
deleter_step i r d_unlock_searchers sys = record (deleter_goes sys i d_resting) { writing = false }
deleter_step i r d_crashed sys = sys

-- `main`, with any memory
unfoldable pub init : (memory : State) → System
init memory = record {
  dinners = record memory { turkey_dinners = 0; dinner_count = 0 };
  allocated = λ _. false;
  readers = 0;
  writing = false;
  inserters_lock = false;
  deleters_lock = false;
  searcher = λ _. s_resting;
  inserter = λ _. i_resting;
  deleter = λ _. d_resting;
}

-- The states that `ns` searchers, `ni` inserters and `nd` deleters can bring about, in any
-- interleaving, while `random()` stays below `top`: it does so for `RAND_MAX + 1`, which is all that
-- is documented of it. Only the `malloc` of an inserter looks at the new node `new`.
pub data Reachable (ns ni nd top : ℕ) : System → Type 0 where
  start : (memory : State) → Reachable ns ni nd top (init memory)
  by_searcher :
      (sys : System) (i r : ℕ)
      → i < ns
      → r < top
      → Reachable ns ni nd top sys
      → Reachable ns ni nd top (searcher_step i r (sys.searcher i) sys)
  by_inserter :
      (sys : System) (i new : ℕ)
      → i < ni
      → 0 < new
      → sys.allocated new ≡ false
      → Reachable ns ni nd top sys
      → Reachable ns ni nd top (inserter_step i new (sys.inserter i) sys)
  by_deleter :
      (sys : System) (i r : ℕ)
      → i < nd
      → r < top
      → Reachable ns ni nd top sys
      → Reachable ns ni nd top (deleter_step i r (sys.deleter i) sys)
