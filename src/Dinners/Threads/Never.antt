-- ===== src/Dinners/Threads/Never.antt =====
-- What no interleaving of the threads of concur/concurrent3/3way.c brings about.
use mathlib.Core.Path.{subst}
use cs.Common.{ℕ, ◌+◌, ◌<◌, ◌≡◌, refl, arith, List, [], length, sum, sum-const}
use cs.Dinners.{State, rand_max}
use cs.Dinners.Nodes.{Nodes}
use cs.Dinners.Threads.{
  SearcherPc, s_crashed, InserterPc, i_resting, i_crashed, DeleterPc, d_resting, d_crashed, System,
  init, Reachable, start, by_searcher, by_inserter, by_deleter,
}
use cs.Dinners.Threads.Whole.{IsSearcher, IsInserter, IsDeleter, linked, unlinked, IsWhole}
use cs.Dinners.Threads.Locks.Held.{Reachable-IsLocked}
use cs.Dinners.Threads.Search.{searcher_step-IsWhole}
use cs.Dinners.Threads.Insert.{inserter_step-IsWhole}
use cs.Dinners.Threads.Delete.{deleter_step-IsWhole}

-- The invariant of the list, for some nodes and owners.
SomeWhole : (ns ni nd : ℕ) → System → Type 0
SomeWhole ns ni nd sys = (owner : ℕ → ℕ) × (xs : List ℕ) × IsWhole ns ni nd sys owner xs

Reachable-whole :
    (ns ni nd : ℕ) (sys : System) → Reachable ns ni nd rand_max sys → SomeWhole ns ni nd sys
unfolding SomeWhole init
Reachable-whole ns ni nd sys (start memory) = (
  λ _. 0,
  [],
  record {
    nodes = refl;
    listed = tt;
    used = λ y. refl;
    count = omega (arith, sum-const linked ni i_resting refl, sum-const unlinked nd d_resting refl);
    searchers = λ i lt. tt;
    inserters = λ i lt. tt;
    deleters = λ j lt. tt;
  },
)
Reachable-whole ns ni nd sys (by_searcher s i r lt small q) =
    let (owner, xs, h) = Reachable-whole ns ni nd s q in
    (
      owner,
      xs,
      searcher_step-IsWhole ns ni nd i s owner xs lt h r (s.searcher i) small
          (Reachable-IsLocked ns ni nd rand_max s q) refl,
    )
Reachable-whole ns ni nd sys (by_inserter s i new lt pos fresh q) =
    let (owner, xs, h) = Reachable-whole ns ni nd s q in
    inserter_step-IsWhole ns ni nd i s owner xs lt h (Reachable-IsLocked ns ni nd rand_max s q) new
      (s.inserter i) pos fresh refl
Reachable-whole ns ni nd sys (by_deleter s j r lt small q) =
    let (owner, xs, h) = Reachable-whole ns ni nd s q in
    deleter_step-IsWhole ns ni nd j s owner xs lt h (Reachable-IsLocked ns ni nd rand_max s q) r
      (s.deleter j) small refl

not_crashed_searcher :
    (st : State) (xs : List ℕ) (pc : SearcherPc) → IsSearcher st xs pc → ¬ (pc ≡ s_crashed)
not_crashed_searcher st xs pc h e = subst (IsSearcher st xs) e h

not_crashed_inserter :
    (st : State) (owner : ℕ → ℕ) (xs : List ℕ) (i : ℕ) (pc : InserterPc)
    → IsInserter st owner xs i pc
    → ¬ (pc ≡ i_crashed)
not_crashed_inserter st owner xs i pc h e = subst (IsInserter st owner xs i) e h

not_crashed_deleter :
    (st : State) (owner : ℕ → ℕ) (xs : List ℕ) (j : ℕ) (pc : DeleterPc)
    → IsDeleter st owner xs j pc
    → ¬ (pc ≡ d_crashed)
not_crashed_deleter st owner xs j pc h e = subst (IsDeleter st owner xs j) e h

-- In every interleaving of searchers, inserters and deleters, as long as `random()` stays below
-- `RAND_MAX` and `malloc` gives nodes that are not in use: no searcher, inserter or deleter ever
-- reads through `NULL`, and the list is whole, with `dinner_count` the number of its nodes but for the
-- threads that stand between linking or unlinking a node and counting it.
pub never_null :
    (ns ni nd : ℕ) (sys : System)
    → Reachable ns ni nd rand_max sys
    → ((i : ℕ) → i < ns → ¬ (sys.searcher i ≡ s_crashed))
      × ((i : ℕ) → i < ni → ¬ (sys.inserter i ≡ i_crashed))
      × ((j : ℕ) → j < nd → ¬ (sys.deleter j ≡ d_crashed))
      × (xs : List ℕ) × Nodes sys.dinners xs
      × (sys.dinners.dinner_count + sum linked ni sys.inserter
          ≡ length xs + sum unlinked nd sys.deleter)
unfolding SomeWhole
never_null ns ni nd sys r =
    let (owner, xs, h) = Reachable-whole ns ni nd sys r in
    (
      λ i lt. not_crashed_searcher sys.dinners xs (sys.searcher i) (h.searchers i lt),
      λ i lt. not_crashed_inserter sys.dinners owner xs i (sys.inserter i) (h.inserters i lt),
      λ j lt. not_crashed_deleter sys.dinners owner xs j (sys.deleter j) (h.deleters j lt),
      xs,
      h.nodes,
      h.count,
    )
