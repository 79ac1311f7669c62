-- ===== src/Dinners/Threads/Locks.antt =====
-- Who holds the locks of concur/concurrent3/3way.c.
pub mod Readers
pub mod Inserters
pub mod Deleters
pub mod Held
use cs.Common.{
  of_cases, ℕ, zero, suc, ◌+◌, ◌-◌, ◌≤◌, ◌<◌, ◌≡◌, ◌⊎◌, inl, inr, refl, sym, ap, ◌∙◌, Bool, true,
  false, arith, ltb, ◌==◌, if◌then◌else◌, Bool-cases, update, sum, sum-update, sum-const, le-sum,
}
use cs.Dinners.{State, unlink_node}
use cs.Dinners.Threads.{
  SearcherPc, s_resting, s_testing, s_drawing, s_looking, s_walking, s_leaving, s_crashed,
  InserterPc, i_resting, i_waiting, i_finding, i_scanning, i_linking, i_counting, i_leaving,
  DeleterPc, d_resting, d_second, d_testing, d_third, d_drawing, d_entering, d_walking, d_unlinking,
  d_counting, d_freeing, d_unlock_deleters, d_unlock_inserters, d_unlock_searchers, d_crashed,
  System, searcher_goes, inserter_goes, deleter_goes, searcher_step, inserter_step, deleter_step,
  init, Reachable, start, by_searcher, by_inserter, by_deleter,
}

-- A searcher with a read lock.
abbrev pub reads : SearcherPc → ℕ
reads s_resting = 0
reads pc = 1

-- An inserter with `inserters_lock`.
abbrev pub inserts : InserterPc → ℕ
inserts i_resting = 0
inserts (i_waiting n) = 0
inserts pc = 1

-- A deleter with the write lock, with `inserters_lock`, and with `deleters_lock`.
abbrev pub writes : DeleterPc → ℕ
writes d_resting = 0
writes pc = 1

abbrev pub excludes : DeleterPc → ℕ
excludes d_resting = 0
excludes d_second = 0
excludes d_unlock_searchers = 0
excludes pc = 1

abbrev pub deletes : DeleterPc → ℕ
deletes d_resting = 0
deletes d_second = 0
deletes d_testing = 0
deletes d_third = 0
deletes d_unlock_inserters = 0
deletes d_unlock_searchers = 0
deletes pc = 1

abbrev pub one_if : Bool → ℕ
one_if b = if b then 1 else 0

pub one_if-le : (b : Bool) → one_if b ≤ 1
one_if-le b = ground arith

-- The locks say how many threads have them: one at most, but for the read lock, and no reader while
-- there is a writer.
pub record IsLocked (ns ni nd : ℕ) (sys : System) : Type 0 where
  pub readers : sum reads ns sys.searcher ≡ sys.readers
  pub writer : sum writes nd sys.deleter ≡ one_if sys.writing
  pub either : (sys.writing ≡ false) ⊎ (sys.readers ≡ 0)
  pub inserters :
      sum inserts ni sys.inserter + sum excludes nd sys.deleter ≡ one_if sys.inserters_lock
  pub deleters : sum deletes nd sys.deleter ≡ one_if sys.deleters_lock
