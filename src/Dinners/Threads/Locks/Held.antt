-- ===== src/Dinners/Threads/Locks/Held.antt =====
-- The locks of concur/concurrent3/3way.c in every interleaving.
use cs.Common.{ℕ, inl, refl, arith, sum-const}
use cs.Dinners.Threads.{
  s_resting, i_resting, d_resting, System, init, Reachable, start, by_searcher, by_inserter,
  by_deleter,
}
use cs.Dinners.Threads.Locks.{reads, inserts, writes, excludes, deletes, IsLocked}
use cs.Dinners.Threads.Locks.Readers.{searcher_step-IsLocked}
use cs.Dinners.Threads.Locks.Inserters.{inserter_step-IsLocked}
use cs.Dinners.Threads.Locks.Deleters.{deleter_step-IsLocked}

-- In every interleaving, whatever bound `random()` stays below, the locks of `3way.c` say how many threads are between their locks and
-- unlocks: at most one deleter has the write lock, and while it has it no searcher has a read lock;
-- at most one inserter or deleter has `inserters_lock`, and at most one deleter `deleters_lock`.
pub Reachable-IsLocked :
    (ns ni nd top : ℕ) (sys : System) → Reachable ns ni nd top sys → IsLocked ns ni nd sys
unfolding init
Reachable-IsLocked ns ni nd top sys (start memory) = record {
  readers = sum-const reads ns s_resting refl;
  writer = sum-const writes nd d_resting refl;
  either = inl refl;
  inserters =
      omega (arith, sum-const inserts ni i_resting refl, sum-const excludes nd d_resting refl);
  deleters = sum-const deletes nd d_resting refl;
}
Reachable-IsLocked ns ni nd top sys (by_searcher s i r lt small reached) =
    searcher_step-IsLocked ns ni nd i s lt (Reachable-IsLocked ns ni nd top s reached) r
      (s.searcher i) refl
Reachable-IsLocked ns ni nd top sys (by_inserter s i new lt real fresh reached) =
    inserter_step-IsLocked ns ni nd i s lt (Reachable-IsLocked ns ni nd top s reached) new
      (s.inserter i) refl
Reachable-IsLocked ns ni nd top sys (by_deleter s i r lt small reached) =
    deleter_step-IsLocked ns ni nd i s lt (Reachable-IsLocked ns ni nd top s reached) r
      (s.deleter i) refl
