-- ===== src/Dinners/Threads/Delete.antt =====
-- A step of a deleter of concur/concurrent3/3way.c on the list.
use mathlib.Core.Path.{subst}
use cs.Common.{
  ℕ, suc, ◌+◌, ◌≤◌, ◌<◌, ◌≡◌, inl, inr, refl, sym, ap, ◌∙◌, Bool, true, false, arith, ltb, ◌==◌,
  List, [], ◌∷◌, length, if◌then◌else◌, Bool-cases, update, sum, sum-update, sum-zero, of_update,
  of_cases,
}
use cs.Dinners.{rand_max, random_range, unlink_node}
use cs.Dinners.Chain.{Chain-pos, before, drop_at}
use cs.Dinners.Safe.{node_at-pos}
use cs.Dinners.Nodes.{node_at-first, node_at-next, before-next}
use cs.Dinners.Turns.{random_range-between}
use cs.Dinners.Threads.{
  DeleterPc, d_resting, d_second, d_testing, d_third, d_drawing, d_entering, d_walking, d_unlinking,
  d_counting, d_freeing, d_unlock_deleters, d_unlock_inserters, d_unlock_searchers, d_crashed,
  System, deleter_goes, deleter_step,
}
use cs.Dinners.Threads.Locks.{excludes, IsLocked}
use cs.Dinners.Threads.Whole.{of_deleter, IsDeleter, unlinked, IsWhole, unlinked-le, deleting_alone}
use cs.Dinners.Threads.Unlink.{frees, unlinks, counts}

before-none : (xs : List ℕ) → 0 ≡ before 0 0 xs
before-none [] = refl
before-none (x ∷ xs) = refl

module _ (ns ni nd j : ℕ) (sys : System) (owner : ℕ → ℕ) (xs : List ℕ) (lt : j < nd)
    (h : IsWhole ns ni nd sys owner xs) where
  -- A step that writes no shared memory.
  deleter_moves :
      (pc p : DeleterPc) (w x d : Bool)
      → sys.deleter j ≡ pc
      → unlinked p ≡ unlinked pc
      → IsDeleter sys.dinners owner xs j p
      → IsWhole ns ni nd
          (record (deleter_goes sys j p) { writing = w; inserters_lock = x; deleters_lock = d })
          owner
          xs
  deleter_moves pc p w x d e same here = record {
    nodes = h.nodes;
    listed = h.listed;
    used = h.used;
    count = omega (arith, sum-update unlinked nd sys.deleter j p lt, ap unlinked e, same, h.count);
    searchers = h.searchers;
    inserters = h.inserters;
    deleters =
        of_update (λ k q. IsDeleter sys.dinners owner xs k q) sys.deleter j p nd here
          (λ k lk ne. h.deleters k lk);
  }

  -- One that changes no lock either.
  deleter_goes-IsWhole :
      (pc p : DeleterPc)
      → sys.deleter j ≡ pc
      → unlinked p ≡ unlinked pc
      → IsDeleter sys.dinners owner xs j p
      → IsWhole ns ni nd (deleter_goes sys j p) owner xs
  deleter_goes-IsWhole pc p = deleter_moves pc p sys.writing sys.inserters_lock sys.deleters_lock

  at : (pc : DeleterPc) → sys.deleter j ≡ pc → IsDeleter sys.dinners owner xs j pc
  at pc e = subst (IsDeleter sys.dinners owner xs j) e (h.deleters j lt)

  walks :
      (prev curr c t : ℕ)
      → sys.deleter j ≡ d_walking prev curr c t
      → IsWhole ns ni nd
          (deleter_goes sys j (
            if c == t
            then d_unlinking prev curr
            else if curr == 0
            then d_crashed
            else d_walking curr (sys.dinners.next_dinner curr) (c + 1) t))
          owner
          xs
  walks prev curr c t e =
      let (k, number, le, most, node, in_front) = at (d_walking prev curr c t) e in
      let goes : DeleterPc → Type 0 = λ p. IsWhole ns ni nd (deleter_goes sys j p) owner xs in
      let st = sys.dinners in
      let here = d_walking prev curr c t in
      of_cases goes (c == t) _ _
        (λ arrived.
          deleter_goes-IsWhole here (d_unlinking prev curr) e refl
            (k, omega (arith, number, le, most), node, in_front))
        (λ far.
          let inside : suc k < length xs = ground arith in
          let real =
            node_at-pos k xs (Chain-pos st.next_dinner st.turkey_dinners xs h.nodes)
              (omega arith) in
          let linked_to =
            node_at-next st.next_dinner st.turkey_dinners k xs h.nodes (omega arith) in
          of_cases goes (curr == 0) _ _ (λ nothing. absurd (ground (arith, node, real)))
            (λ _.
              deleter_goes-IsWhole here (d_walking curr (st.next_dinner curr) (c + 1) t) e refl (
                suc k,
                omega (arith, number),
                ground arith,
                most,
                ap st.next_dinner node ∙ linked_to,
                node ∙ sym (before-next 0 k xs (omega arith)),
              )))

  module _ (l : IsLocked ns ni nd sys) where
    -- The number that is drawn is that of a node.
    draws :
        (r : ℕ)
        → r < rand_max
        → sys.deleter j ≡ d_drawing
        → (0 < random_range r 1 sys.dinners.dinner_count)
          × (random_range r 1 sys.dinners.dinner_count ≤ length xs)
    draws r small e =
        let n = sys.dinners.dinner_count in
        let some_left : 0 < n = at d_drawing e in
        let (low, high) = random_range-between r 1 n (omega (arith, some_left)) small in
        let (unread, alone, others) =
          deleting_alone ns ni nd sys l j lt (omega (arith, ap excludes e)) in
        let none_unlinked : sum unlinked nd sys.deleter ≡ 0 =
          sum-zero unlinked nd sys.deleter (λ k lk. elim (Bool-cases (k == j)) [
            | inl here ↦ let same : k ≡ j = ground arith in ap unlinked (ap sys.deleter same ∙ e)
            | inr ne ↦ unlinked-le (sys.deleter k) (others k lk ne)
          ]) in
        (omega (arith, low), omega (arith, high, h.count, none_unlinked))

    unlinks_at :
        (prev curr : ℕ)
        → sys.deleter j ≡ d_unlinking prev curr
        → (owner' : ℕ → ℕ) × (xs' : List ℕ) × IsWhole ns ni nd
            (if curr == 0
              then deleter_goes sys j d_crashed
              else record (deleter_goes sys j (d_counting curr)) {
                dinners = unlink_node sys.dinners prev curr;
              })
            owner'
            xs'
    unlinks_at prev curr e =
        let st = sys.dinners in
        let (k, inside, node, in_front) = at (d_unlinking prev curr) e in
        let real =
          node_at-pos k xs (Chain-pos st.next_dinner st.turkey_dinners xs h.nodes) inside in
        (
          _,
          _,
          of_cases (λ s. IsWhole ns ni nd s (update owner curr (of_deleter j)) (drop_at k xs))
              (curr == 0) _ _ (λ nothing. absurd (ground (arith, node, real)))
              (λ _. unlinks ns ni nd j sys owner xs lt h l prev curr e k inside node in_front),
        )

    pub deleter_step-IsWhole :
        (r : ℕ) (pc : DeleterPc)
        → r < rand_max
        → sys.deleter j ≡ pc
        → (owner' : ℕ → ℕ) × (xs' : List ℕ) × IsWhole ns ni nd (deleter_step j r pc sys) owner' xs'
    unfolding deleter_step
    deleter_step-IsWhole r d_resting small e = (
      owner,
      xs,
      of_cases (λ s. IsWhole ns ni nd s owner xs) sys.writing _ _ (λ _. h)
          (λ _.
            of_cases (λ s. IsWhole ns ni nd s owner xs) (sys.readers == 0) _ _
              (λ _.
                deleter_moves d_resting d_second true sys.inserters_lock sys.deleters_lock e refl
                  tt)
              (λ _. h)),
    )
    deleter_step-IsWhole r d_second small e = (
      owner,
      xs,
      of_cases (λ s. IsWhole ns ni nd s owner xs) sys.inserters_lock _ _ (λ _. h)
          (λ _. deleter_moves d_second d_testing sys.writing true sys.deleters_lock e refl tt),
    )
    deleter_step-IsWhole r d_testing small e = (
      owner,
      xs,
      of_cases (λ p. IsWhole ns ni nd (deleter_goes sys j p) owner xs)
          (ltb 0 sys.dinners.dinner_count) _ _
          (λ some_left. deleter_goes-IsWhole d_testing d_third e refl (ground arith))
          (λ _. deleter_goes-IsWhole d_testing d_unlock_inserters e refl tt),
    )
    deleter_step-IsWhole r d_third small e = (
      owner,
      xs,
      of_cases (λ s. IsWhole ns ni nd s owner xs) sys.deleters_lock _ _ (λ _. h)
          (λ _.
            deleter_moves d_third d_drawing sys.writing sys.inserters_lock true e refl
              (at d_third e)),
    )
    deleter_step-IsWhole r d_drawing small e = (
      owner,
      xs,
      deleter_goes-IsWhole d_drawing (d_entering (random_range r 1 sys.dinners.dinner_count)) e refl
          (draws r small e),
    )
    deleter_step-IsWhole r (d_entering t) small e =
        let st = sys.dinners in
        let (low, high) = at (d_entering t) e in
        let first = node_at-first st.next_dinner st.turkey_dinners xs h.nodes in
        (
          owner,
          xs,
          deleter_goes-IsWhole (d_entering t) (d_walking 0 st.turkey_dinners 1 t) e refl
              (0, refl, omega (arith, low), high, first, before-none xs),
        )
    deleter_step-IsWhole r (d_walking prev curr c t) small e = (owner, xs, walks prev curr c t e)
    deleter_step-IsWhole r (d_unlinking prev curr) small e = unlinks_at prev curr e
    deleter_step-IsWhole r (d_counting c) small e =
        (owner, xs, counts ns ni nd j sys owner xs lt h l c e)
    deleter_step-IsWhole r (d_freeing c) small e = (_, xs, frees ns ni nd j sys owner xs lt h c e)
    deleter_step-IsWhole r d_unlock_deleters small e = (
      owner,
      xs,
      deleter_moves d_unlock_deleters d_unlock_inserters sys.writing sys.inserters_lock false e refl
          tt,
    )
    deleter_step-IsWhole r d_unlock_inserters small e = (
      owner,
      xs,
      deleter_moves d_unlock_inserters d_unlock_searchers sys.writing false sys.deleters_lock e refl
          tt,
    )
    deleter_step-IsWhole r d_unlock_searchers small e = (
      owner,
      xs,
      deleter_moves d_unlock_searchers d_resting false sys.inserters_lock sys.deleters_lock e refl
          tt,
    )
    deleter_step-IsWhole r d_crashed small e = absurd (at d_crashed e)
