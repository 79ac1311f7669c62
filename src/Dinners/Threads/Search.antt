-- ===== src/Dinners/Threads/Search.antt =====
-- A step of a searcher of concur/concurrent3/3way.c on the list.
use mathlib.Core.Path.{subst}
use cs.Common.{
  ℕ, suc, ◌+◌, ◌-◌, ◌≤◌, ◌<◌, ◌≡◌, refl, ap, ◌∙◌, arith, ltb, ◌==◌, List, length, if◌then◌else◌,
  of_update, of_cases,
}
use cs.Dinners.{rand_max, random_range}
use cs.Dinners.Chain.{Chain-pos}
use cs.Dinners.Safe.{node_at-pos}
use cs.Dinners.Nodes.{node_at-first, node_at-next}
use cs.Dinners.Turns.{random_range-between}
use cs.Dinners.Threads.{
  SearcherPc, s_resting, s_testing, s_drawing, s_looking, s_walking, s_leaving, s_crashed, System,
  searcher_goes, searcher_step,
}
use cs.Dinners.Threads.Locks.{reads, IsLocked}
use cs.Dinners.Threads.Whole.{IsSearcher, IsWhole, reading_alone}

module _ (ns ni nd i : ℕ) (sys : System) (owner : ℕ → ℕ) (xs : List ℕ) (lt : i < ns)
    (h : IsWhole ns ni nd sys owner xs) where
  -- A searcher changes nothing that another thread relies on.
  searcher_moves :
      (p : SearcherPc) (n : ℕ)
      → IsSearcher sys.dinners xs p
      → IsWhole ns ni nd (record (searcher_goes sys i p) { readers = n }) owner xs
  searcher_moves p n here = record {
    nodes = h.nodes;
    listed = h.listed;
    used = h.used;
    count = h.count;
    searchers =
        of_update (λ k q. IsSearcher sys.dinners xs q) sys.searcher i p ns here
          (λ k lk ne. h.searchers k lk);
    inserters = h.inserters;
    deleters = h.deleters;
  }

  at : (pc : SearcherPc) → sys.searcher i ≡ pc → IsSearcher sys.dinners xs pc
  at pc e = subst (IsSearcher sys.dinners xs) e (h.searchers i lt)

  -- The number that is drawn is that of a node.
  draws :
      (r : ℕ)
      → r < rand_max
      → IsLocked ns ni nd sys
      → sys.searcher i ≡ s_drawing
      → (0 < random_range r 1 sys.dinners.dinner_count)
        × (random_range r 1 sys.dinners.dinner_count ≤ length xs)
  draws r small l e =
      let n = sys.dinners.dinner_count in
      let some_left : 0 < n = at s_drawing e in
      let (low, high) = random_range-between r 1 n (omega (arith, some_left)) small in
      let none_unlinked = reading_alone ns ni nd sys l i lt (omega (arith, ap reads e)) in
      (omega (arith, low), omega (arith, high, h.count, none_unlinked))

  walks :
      (curr c t : ℕ)
      → sys.searcher i ≡ s_walking curr c t
      → IsWhole ns ni nd
          (searcher_goes sys i (
            if c == t
            then s_leaving
            else if curr == 0
            then s_crashed
            else s_walking (sys.dinners.next_dinner curr) (c + 1) t))
          owner
          xs
  walks curr c t e =
      let (k, number, le, most, node) = at (s_walking curr c t) e in
      let goes : SearcherPc → Type 0 = λ p. IsWhole ns ni nd (searcher_goes sys i p) owner xs in
      let st = sys.dinners in
      of_cases goes (c == t) _ _ (λ _. searcher_moves s_leaving sys.readers tt)
        (λ far.
          let inside : suc k < length xs = ground arith in
          let real =
            node_at-pos k xs (Chain-pos st.next_dinner st.turkey_dinners xs h.nodes)
              (omega arith) in
          let linked_to =
            node_at-next st.next_dinner st.turkey_dinners k xs h.nodes (omega arith) in
          of_cases goes (curr == 0) _ _ (λ nothing. absurd (ground (arith, node, real)))
            (λ _.
              searcher_moves (s_walking (st.next_dinner curr) (c + 1) t) sys.readers
                (suc k, omega arith, ground arith, most, ap st.next_dinner node ∙ linked_to)))

  pub searcher_step-IsWhole :
      (r : ℕ) (pc : SearcherPc)
      → r < rand_max
      → IsLocked ns ni nd sys
      → sys.searcher i ≡ pc
      → IsWhole ns ni nd (searcher_step i r pc sys) owner xs
  unfolding searcher_step
  searcher_step-IsWhole r s_resting small l e =
      of_cases (λ s. IsWhole ns ni nd s owner xs) sys.writing _ _ (λ _. h)
        (λ _. searcher_moves s_testing (sys.readers + 1) tt)
  searcher_step-IsWhole r s_testing small l e =
      of_cases (λ p. IsWhole ns ni nd (searcher_goes sys i p) owner xs)
        (ltb 0 sys.dinners.dinner_count) _ _
        (λ some_left. searcher_moves s_drawing sys.readers (ground arith))
        (λ _. searcher_moves s_leaving sys.readers tt)
  searcher_step-IsWhole r s_drawing small l e =
      searcher_moves (s_looking (random_range r 1 sys.dinners.dinner_count)) sys.readers
        (draws r small l e)
  searcher_step-IsWhole r (s_looking t) small l e =
      let (low, high) = at (s_looking t) e in
      searcher_moves (s_walking sys.dinners.turkey_dinners 1 t) sys.readers (
        0,
        refl,
        omega (arith, low),
        high,
        node_at-first sys.dinners.next_dinner sys.dinners.turkey_dinners xs h.nodes,
      )
  searcher_step-IsWhole r (s_walking curr c t) small l e = walks curr c t e
  searcher_step-IsWhole r s_leaving small l e = searcher_moves s_resting (sys.readers - 1) tt
  searcher_step-IsWhole r s_crashed small l e = absurd (at s_crashed e)
