-- ===== src/Dinners/Threads/Unlink.antt =====
-- The writes of a deleter of concur/concurrent3/3way.c: a node is unlinked, counted out and freed.
use mathlib.Core.Path.{subst}
use cs.Common.{
  ℕ, ◌-◌, ◌<◌, ◌≡◌, sym, ap, ◌∙◌, false, arith, ◌==◌, List, length, All-zip, update, sum,
  sum-update, sum-zero, of_update,
}
use cs.Dinners.{State, unlink_node}
use cs.Dinners.Chain.{Chain-pos, node_at, before, drop_at, All-drop, All-before}
use cs.Dinners.Safe.{node_at-pos, length-drop_at}
use cs.Dinners.Nodes.{
  Nodes, All-node_at, drop_at-away, unlink_node-Chain, unlink_node-other, count-nodes,
}
use cs.Dinners.Threads.{
  DeleterPc, d_unlinking, d_counting, d_freeing, d_unlock_deleters, System, deleter_goes,
  deleter_step,
}
use cs.Dinners.Threads.Locks.{excludes, IsLocked}
use cs.Dinners.Threads.Whole.{
  of_deleter, IsPending, IsDeleter, linked, unlinked, IsWhole, searcher_outside, inserter_outside,
  inserter_keeps, deleter_outside, linked-le, deleting_alone,
}
use cs.Dinners.Threads.Keep.{deleter_keeps, owner_keeps, listed_away, listed_keeps}

module _ (ns ni nd j : ℕ) (sys : System) (owner : ℕ → ℕ) (xs : List ℕ) (lt : j < nd)
    (h : IsWhole ns ni nd sys owner xs) where
  pub deleter_at : (pc : DeleterPc) → sys.deleter j ≡ pc → IsDeleter sys.dinners owner xs j pc
  deleter_at pc e = subst (IsDeleter sys.dinners owner xs j) e (h.deleters j lt)

  -- Its node becomes nobody's.
  pub frees :
      (c : ℕ)
      → sys.deleter j ≡ d_freeing c
      → IsWhole ns ni nd (deleter_step j 0 (d_freeing c) sys) (update owner c 0) xs
  unfolding deleter_step
  frees c e =
      let st = sys.dinners in
      let (real, own) = deleter_at (d_freeing c) e in
      let unlisted : (1 == owner c) ≡ false = ground (arith, own) in
      record {
        nodes = h.nodes;
        listed = listed_keeps owner c 0 xs unlisted h.listed;
        used = λ y. ground (arith, h.used y);
        count = omega (
          arith,
          sum-update unlinked nd sys.deleter j d_unlock_deleters lt,
          ap unlinked e,
          h.count,
        );
        searchers = h.searchers;
        inserters = λ i li.
            inserter_keeps st st owner (update owner c 0) xs i (sys.inserter i)
              (λ n (pos, mine, ends).
                (pos, owner_keeps owner c 0 n (ground (arith, mine, own)) ∙ mine, ends))
              (h.inserters i li);
        deleters =
            of_update (λ k q. IsDeleter st (update owner c 0) xs k q) sys.deleter j
              d_unlock_deleters nd tt
              (λ k lk ne.
                deleter_keeps st st owner (update owner c 0) xs k (sys.deleter k) (λ g. g)
                  (λ q _ mine. owner_keeps owner c 0 q (ground (arith, mine, own, ne)) ∙ mine)
                  (h.deleters k lk));
      }

  module _ (l : IsLocked ns ni nd sys) where
    IsPending-beside :
        (prev curr k i m : ℕ)
        → owner curr ≡ 1
        → prev ≡ before 0 k xs
        → IsPending sys.dinners owner i m
        → IsPending (unlink_node sys.dinners prev curr) (update owner curr (of_deleter j)) i m
    IsPending-beside prev curr k i m own in_front (real, mine, ends) =
        let other : (owner m == owner curr) ≡ false = ground (arith, mine, own) in
        let unlisted : (1 == owner m) ≡ false = ground (arith, mine) in
        let apart : (before 0 k xs == m) ≡ false =
          All-before (λ y. (y == m) ≡ false) 0 k xs (ground (arith, real))
            (listed_away owner m xs unlisted h.listed) in
        (
          real,
          owner_keeps owner curr (of_deleter j) m other ∙ mine,
          unlink_node-other sys.dinners prev curr m (ground (arith, apart, in_front)) ∙ ends,
        )

    pub unlinks :
        (prev curr : ℕ)
        → sys.deleter j ≡ d_unlinking prev curr
        → (k : ℕ) → k < length xs
        → curr ≡ node_at k xs
        → prev ≡ before 0 k xs
        → IsWhole ns ni nd
            (record (deleter_goes sys j (d_counting curr)) {
              dinners = unlink_node sys.dinners prev curr;
            })
            (update owner curr (of_deleter j))
            (drop_at k xs)
    unlinks prev curr e k inside node in_front =
        let st = sys.dinners in
        let st' = unlink_node st prev curr in
        let owner' = update owner curr (of_deleter j) in
        let xs' = drop_at k xs in
        let (unread, alone, others) =
          deleting_alone ns ni nd sys l j lt (omega (arith, ap excludes e)) in
        let own : owner curr ≡ 1 =
          ap owner node ∙ All-node_at (λ y. owner y ≡ 1) k xs h.listed inside in
        let real : 0 < curr = omega (
          arith,
          node,
          node_at-pos k xs (Chain-pos st.next_dinner st.turkey_dinners xs h.nodes) inside,
        ) in
        let same_count = (count-nodes st prev curr).1 in
        let away = drop_at-away st.next_dinner st.turkey_dinners k xs h.nodes inside in
        record {
          nodes =
              subst (λ q. Nodes (unlink_node st q curr) xs') (sym in_front)
                (subst (λ q. Nodes (unlink_node st (before 0 k xs) q) xs') (sym node)
                  (unlink_node-Chain st k xs h.nodes inside));
          listed =
              All-zip (λ y. owner y ≡ 1) (λ y. (y == node_at k xs) ≡ false) (λ y. owner' y ≡ 1)
                (λ y mine ne. let other : (y == curr) ≡ false = rw node ne in rw other mine) xs'
                (All-drop _ k xs h.listed) away;
          used = λ y. ground (arith, h.used y, own);
          count = omega (
            arith,
            sum-update unlinked nd sys.deleter j (d_counting curr) lt,
            ap unlinked e,
            h.count,
            length-drop_at k xs inside,
            same_count,
          );
          searchers = λ i li. searcher_outside st' xs' (sys.searcher i) (unread i li);
          inserters = λ i li.
              inserter_outside st st' owner owner' xs xs' i (sys.inserter i) (alone i li)
                (λ m. IsPending-beside prev curr k i m own in_front) (h.inserters i li);
          deleters =
              of_update (λ q p. IsDeleter st' owner' xs' q p) sys.deleter j (d_counting curr) nd
                (real, ground arith)
                (λ q lq ne. deleter_outside st' owner' xs' q (sys.deleter q) (others q lq ne));
        }

    pub counts :
        (c : ℕ)
        → sys.deleter j ≡ d_counting c
        → IsWhole ns ni nd (deleter_step j 0 (d_counting c) sys) owner xs
    unfolding deleter_step
    counts c e =
        let st = sys.dinners in
        let st' : State = record st { dinner_count = st.dinner_count - 1 } in
        let (unread, alone, others) =
          deleting_alone ns ni nd sys l j lt (omega (arith, ap excludes e)) in
        let none_linked : sum linked ni sys.inserter ≡ 0 =
          sum-zero linked ni sys.inserter (λ i li. linked-le (sys.inserter i) (alone i li)) in
        record {
          nodes = h.nodes;
          listed = h.listed;
          used = h.used;
          count = omega (
            arith,
            sum-update unlinked nd sys.deleter j (d_freeing c) lt,
            ap unlinked e,
            h.count,
            none_linked,
          );
          searchers = λ i li. searcher_outside st' xs (sys.searcher i) (unread i li);
          inserters = λ i li.
              inserter_keeps st st' owner owner xs i (sys.inserter i) (λ n p. p) (h.inserters i li);
          deleters =
              of_update (λ q p. IsDeleter st' owner xs q p) sys.deleter j (d_freeing c) nd
                (deleter_at (d_counting c) e)
                (λ q lq ne. deleter_outside st' owner xs q (sys.deleter q) (others q lq ne));
        }
