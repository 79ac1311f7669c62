-- ===== src/Dinners/Threads/Link.antt =====
-- The writes of an inserter of concur/concurrent3/3way.c: a node is made, linked and counted.
use mathlib.Core.Path.{subst}
use cs.Common.{
  ℕ, ◌+◌, ◌<◌, ◌≡◌, refl, sym, ap, ◌∙◌, false, arith, ◌==◌, List, [], ◌∷◌, ◌++◌, length-append,
  All-append, update, sum-update, of_update,
}
use cs.Dinners.{State, link_node}
use cs.Dinners.Chain.{Chain-update, last_of}
use cs.Dinners.Nodes.{
  last_of-away, Nodes, node_at-append, link_node-Chain, link_node-other, count-nodes,
}
use cs.Dinners.Threads.{
  InserterPc, i_resting, i_waiting, i_linking, i_counting, i_leaving, System, inserter_goes,
  inserter_step,
}
use cs.Dinners.Threads.Locks.{inserts, IsLocked}
use cs.Dinners.Threads.Whole.{
  of_inserter, IsPending, IsInserter, linked, IsWhole, inserter_outside, inserter_keeps,
  deleter_outside, inserting_alone,
}
use cs.Dinners.Threads.Keep.{
  differ, searcher_keeps, deleter_keeps, owner_keeps, listed_away, listed_keeps,
}

module _ (ns ni nd i : ℕ) (sys : System) (owner : ℕ → ℕ) (xs : List ℕ) (lt : i < ni)
    (h : IsWhole ns ni nd sys owner xs) where
  inserter_at : (pc : InserterPc) → sys.inserter i ≡ pc → IsInserter sys.dinners owner xs i pc
  inserter_at pc e = subst (IsInserter sys.dinners owner xs i) e (h.inserters i lt)

  -- `malloc` and the writes to the new node.
  pub inserter_malloc :
      (new : ℕ)
      → 0 < new
      → sys.allocated new ≡ false
      → sys.inserter i ≡ i_resting
      → IsWhole ns ni nd (inserter_step i new i_resting sys) (update owner new (of_inserter i)) xs
  unfolding inserter_step
  inserter_malloc new pos fresh e =
      let st = sys.dinners in
      let owner' = update owner new (of_inserter i) in
      let free : owner new ≡ 0 = ground (arith, h.used new, fresh) in
      let st' : State = record st {
        number_guests = update st.number_guests new 4;
        next_dinner = update st.next_dinner new 0;
      } in
      let unlisted : (1 == owner new) ≡ false = rw free refl in
      let keep : (k n : ℕ) → IsPending st owner k n → IsPending st' owner' k n =
        λ k n (real, own, ends).
          let ne : (owner n == owner new) ≡ false = ground arith in
          (
            real,
            owner_keeps owner new (of_inserter i) n ne ∙ own,
            rw (differ owner n new ne) ends,
          ) in
      record {
        nodes =
            Chain-update st.next_dinner st.turkey_dinners xs new 0
              (listed_away owner new xs unlisted h.listed) h.nodes;
        listed = listed_keeps owner new (of_inserter i) xs unlisted h.listed;
        used = λ y. ground (arith, h.used y);
        count =
            omega
              (arith, sum-update linked ni sys.inserter i (i_waiting new) lt, ap linked e, h.count);
        searchers = λ k lk.
            searcher_keeps st st' xs xs (sys.searcher k) (λ g. g) (omega arith) (λ _ _. refl)
              (h.searchers k lk);
        inserters =
            of_update (λ k q. IsInserter st' owner' xs k q) sys.inserter i (i_waiting new) ni
              (pos, ground arith, ground arith)
              (λ k lk ne.
                inserter_keeps st st' owner owner' xs k (sys.inserter k) (keep k)
                  (h.inserters k lk));
        deleters = λ j lj.
            deleter_keeps st st' owner owner' xs j (sys.deleter j) (λ g. g)
              (λ c _ own. owner_keeps owner new (of_inserter i) c (ground arith) ∙ own)
              (h.deleters j lj);
      }

  module _ (l : IsLocked ns ni nd sys) where
    IsPending-beside :
        (n last k m : ℕ)
        → owner n ≡ of_inserter i
        → last ≡ last_of 0 xs
        → (k == i) ≡ false
        → IsPending sys.dinners owner k m
        → IsPending (link_node sys.dinners last n) (update owner n 1) k m
    IsPending-beside n last k m own at_last ne (real, mine, ends) =
        let other : (owner m == owner n) ≡ false = ground (arith, mine, own, ne) in
        let unlisted : (1 == owner m) ≡ false = ground (arith, mine) in
        let apart : (m == last) ≡ false =
          rw at_last (last_of-away m xs real (listed_away owner m xs unlisted h.listed)) in
        (
          real,
          owner_keeps owner n 1 m other ∙ mine,
          link_node-other sys.dinners last n m apart ∙ ends,
        )

    -- The node is linked behind the last one.
    pub inserter_links :
        (n last : ℕ)
        → sys.inserter i ≡ i_linking n last
        → IsWhole ns ni nd
            (record (inserter_goes sys i i_counting) { dinners = link_node sys.dinners last n })
            (update owner n 1)
            (xs ++ n ∷ [])
    inserter_links n last e =
        let st = sys.dinners in
        let st' = link_node st last n in
        let ((real, own, ends), at_last) = inserter_at (i_linking n last) e in
        let unlisted : (1 == owner n) ≡ false = ground (arith, own) in
        let away = listed_away owner n xs unlisted h.listed in
        let (alone, undeleted) =
          inserting_alone ns ni nd sys l i lt (omega (arith, ap inserts e)) in
        let same_count = (count-nodes st last n).0 in
        record {
          nodes =
              subst (λ q. Nodes (link_node st q n) (xs ++ n ∷ [])) (sym at_last)
                (link_node-Chain st n xs h.nodes real ends away);
          listed =
              All-append _ xs (n ∷ []) (listed_keeps owner n 1 xs unlisted h.listed)
                (ground arith, tt);
          used = λ y. ground (arith, h.used y, own);
          count = omega (
            arith,
            sum-update linked ni sys.inserter i i_counting lt,
            ap linked e,
            h.count,
            length-append xs (n ∷ []),
            same_count,
          );
          searchers = λ k lk.
              searcher_keeps st st' xs (xs ++ n ∷ []) (sys.searcher k)
                (λ g. omega (arith, g, same_count)) (omega (arith, length-append xs (n ∷ [])))
                (λ q lq. sym (node_at-append q xs (n ∷ []) lq)) (h.searchers k lk);
          inserters =
              of_update (λ k q. IsInserter st' (update owner n 1) (xs ++ n ∷ []) k q) sys.inserter i
                i_counting ni tt
                (λ k lk ne.
                  inserter_outside st st' owner (update owner n 1) xs (xs ++ n ∷ []) k
                    (sys.inserter k) (alone k lk ne)
                    (λ m. IsPending-beside n last k m own at_last ne) (h.inserters k lk));
          deleters = λ j lj.
              deleter_outside st' (update owner n 1) (xs ++ n ∷ []) j (sys.deleter j)
                (undeleted j lj);
        }

    pub inserter_counts :
        sys.inserter i ≡ i_counting → IsWhole ns ni nd (inserter_step i 0 i_counting sys) owner xs
    unfolding inserter_step
    inserter_counts e =
        let st = sys.dinners in
        let st' : State = record st { dinner_count = st.dinner_count + 1 } in
        let (alone, undeleted) =
          inserting_alone ns ni nd sys l i lt (omega (arith, ap inserts e)) in
        record {
          nodes = h.nodes;
          listed = h.listed;
          used = h.used;
          count =
              omega (arith, sum-update linked ni sys.inserter i i_leaving lt, ap linked e, h.count);
          searchers = λ k lk.
              searcher_keeps st st' xs xs (sys.searcher k) (λ g. omega arith) (omega arith)
                (λ _ _. refl) (h.searchers k lk);
          inserters =
              of_update (λ k q. IsInserter st' owner xs k q) sys.inserter i i_leaving ni tt
                (λ k lk ne.
                  inserter_keeps st st' owner owner xs k (sys.inserter k) (λ n p. p)
                    (h.inserters k lk));
          deleters = λ j lj. deleter_outside st' owner xs j (sys.deleter j) (undeleted j lj);
        }
