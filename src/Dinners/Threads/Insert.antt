-- ===== src/Dinners/Threads/Insert.antt =====
-- A step of an inserter of concur/concurrent3/3way.c on the list.
use mathlib.Core.Path.{subst}
use cs.Common.{
  ℕ, suc, ◌≤◌, ◌<◌, ◌≡◌, refl, ap, ◌∙◌, Bool, true, false, arith, ◌==◌, List, [], ◌∷◌, length,
  if◌then◌else◌, inl, inr, Bool-cases, sum-update, of_update, of_cases,
}
use cs.Dinners.Chain.{Chain-pos, last_of, node_at}
use cs.Dinners.Nodes.{node_at-end, node_at-inside, node_at-first, node_at-next, node_at-last}
use cs.Dinners.Threads.{
  InserterPc, i_resting, i_waiting, i_finding, i_scanning, i_linking, i_counting, i_leaving,
  i_crashed, System, inserter_goes, inserter_step,
}
use cs.Dinners.Threads.Locks.{IsLocked}
use cs.Dinners.Threads.Whole.{IsInserter, linked, IsWhole}
use cs.Dinners.Threads.Link.{inserter_malloc, inserter_links, inserter_counts}

last_of-none : (xs : List ℕ) → length xs ≤ 0 → 0 ≡ last_of 0 xs
last_of-none [] le = refl
last_of-none (x ∷ xs) le = absurd (omega arith)

module _ (ns ni nd i : ℕ) (sys : System) (owner : ℕ → ℕ) (xs : List ℕ) (lt : i < ni)
    (h : IsWhole ns ni nd sys owner xs) where
  -- A step that writes no shared memory.
  inserter_moves :
      (pc p : InserterPc) (lock : Bool)
      → sys.inserter i ≡ pc
      → linked p ≡ linked pc
      → IsInserter sys.dinners owner xs i p
      → IsWhole ns ni nd (record (inserter_goes sys i p) { inserters_lock = lock }) owner xs
  inserter_moves pc p lock e same here = record {
    nodes = h.nodes;
    listed = h.listed;
    used = h.used;
    count = omega (arith, sum-update linked ni sys.inserter i p lt, ap linked e, same, h.count);
    searchers = h.searchers;
    inserters =
        of_update (λ k q. IsInserter sys.dinners owner xs k q) sys.inserter i p ni here
          (λ k lk ne. h.inserters k lk);
    deleters = h.deleters;
  }

  at : (pc : InserterPc) → sys.inserter i ≡ pc → IsInserter sys.dinners owner xs i pc
  at pc e = subst (IsInserter sys.dinners owner xs i) e (h.inserters i lt)

  finds :
      (n : ℕ)
      → sys.inserter i ≡ i_finding n
      → IsWhole ns ni nd
          (inserter_goes sys i (
            if sys.dinners.turkey_dinners == 0
            then i_linking n 0
            else i_scanning n sys.dinners.turkey_dinners))
          owner
          xs
  finds n e =
      let st = sys.dinners in
      let pending = at (i_finding n) e in
      let first = node_at-first st.next_dinner st.turkey_dinners xs h.nodes in
      let positive = Chain-pos st.next_dinner st.turkey_dinners xs h.nodes in
      of_cases (λ p. IsWhole ns ni nd (inserter_goes sys i p) owner xs) (st.turkey_dinners == 0) _ _
        (λ none_left.
          inserter_moves (i_finding n) (i_linking n 0) sys.inserters_lock e refl
            (pending, last_of-none xs (node_at-end 0 xs positive (ground (arith, first)))))
        (λ some_left.
          inserter_moves (i_finding n) (i_scanning n st.turkey_dinners) sys.inserters_lock e refl
            (pending, 0, node_at-inside 0 xs (ground (arith, first)), first))

  node_at-IsNode : (last k : ℕ) → k < length xs → last ≡ node_at k xs → (last == 0) ≡ false
  node_at-IsNode last k inside node =
      let positive = Chain-pos sys.dinners.next_dinner sys.dinners.turkey_dinners xs h.nodes in
      elim (Bool-cases (last == 0)) [
        | inl none_here ↦
            absurd (omega (arith, inside, node_at-end k xs positive (ground (arith, node))))
        | inr node_here ↦ node_here
      ]

  scans :
      (n last : ℕ)
      → sys.inserter i ≡ i_scanning n last
      → IsWhole ns ni nd
          (inserter_goes sys i (
            if last == 0
            then i_crashed
            else if sys.dinners.next_dinner last == 0
            then i_linking n last
            else i_scanning n (sys.dinners.next_dinner last)))
          owner
          xs
  scans n last e =
      let st = sys.dinners in
      let (pending, k, inside, node) = at (i_scanning n last) e in
      let next_node : st.next_dinner last ≡ node_at (suc k) xs =
        ap st.next_dinner node
        ∙ node_at-next st.next_dinner st.turkey_dinners k xs h.nodes inside in
      let positive = Chain-pos st.next_dinner st.turkey_dinners xs h.nodes in
      rw (node_at-IsNode last k inside node) (
        of_cases (λ p. IsWhole ns ni nd (inserter_goes sys i p) owner xs) (st.next_dinner last == 0)
          _ _
          (λ ends. inserter_moves (i_scanning n last) (i_linking n last) sys.inserters_lock e refl (
            pending,
            node
                ∙ node_at-last 0 k xs (
                    omega
                      (arith, inside, node_at-end (suc k) xs positive (ground (arith, next_node)))),
          ))
          (λ more.
            inserter_moves (i_scanning n last) (i_scanning n (st.next_dinner last))
              sys.inserters_lock e refl
              (pending, suc k, node_at-inside (suc k) xs (ground (arith, next_node)), next_node)))

  module _ (l : IsLocked ns ni nd sys) where
    pub inserter_step-IsWhole :
        (new : ℕ) (pc : InserterPc)
        → 0 < new
        → sys.allocated new ≡ false
        → sys.inserter i ≡ pc
        → (owner' : ℕ → ℕ) × (xs' : List ℕ) × IsWhole ns ni nd
            (inserter_step i new pc sys)
            owner'
            xs'
    unfolding inserter_step
    inserter_step-IsWhole new i_resting pos fresh e =
        (_, xs, inserter_malloc ns ni nd i sys owner xs lt h new pos fresh e)
    inserter_step-IsWhole new (i_waiting n) pos fresh e = (
      owner,
      xs,
      of_cases (λ s. IsWhole ns ni nd s owner xs) sys.inserters_lock _ _ (λ _. h)
          (λ _. inserter_moves (i_waiting n) (i_finding n) true e refl (at (i_waiting n) e)),
    )
    inserter_step-IsWhole new (i_finding n) pos fresh e = (owner, xs, finds n e)
    inserter_step-IsWhole new (i_scanning n last) pos fresh e = (owner, xs, scans n last e)
    inserter_step-IsWhole new (i_linking n last) pos fresh e =
        (_, _, inserter_links ns ni nd i sys owner xs lt h l n last e)
    inserter_step-IsWhole new i_counting pos fresh e =
        (owner, xs, inserter_counts ns ni nd i sys owner xs lt h l e)
    inserter_step-IsWhole new i_leaving pos fresh e =
        (owner, xs, inserter_moves i_leaving i_resting false e refl tt)
    inserter_step-IsWhole new i_crashed pos fresh e = (owner, xs, h)
