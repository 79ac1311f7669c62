-- ===== src/Dinners/Threads/Locks/Readers.antt =====
-- The locks over a step of a searcher of concur/concurrent3/3way.c.
use cs.Common.{
  of_cases, ℕ, ◌-◌, ◌<◌, ◌≡◌, ◌⊎◌, inl, inr, refl, ap, false, arith, ltb, ◌==◌, sum-update,
}
use cs.Dinners.Threads.{
  SearcherPc, s_resting, s_testing, s_drawing, s_looking, s_walking, s_leaving, s_crashed, System,
  searcher_goes, searcher_step,
}
use cs.Dinners.Threads.Locks.{reads, IsLocked}

module _ (ns ni nd i : ℕ) (sys : System) (lt : i < ns) (h : IsLocked ns ni nd sys) where
  -- A searcher that stays between its lock and its unlock changes no lock.
  searcher_stays :
      (pc p : SearcherPc)
      → sys.searcher i ≡ pc
      → reads p ≡ reads pc
      → IsLocked ns ni nd (searcher_goes sys i p)
  searcher_stays pc p e same = record {
    readers = omega (arith, sum-update reads ns sys.searcher i p lt, ap reads e, same, h.readers);
    writer = h.writer;
    either = h.either;
    inserters = h.inserters;
    deleters = h.deleters;
  }

  pub searcher_step-IsLocked :
      (r : ℕ) (pc : SearcherPc) → sys.searcher i ≡ pc → IsLocked ns ni nd (searcher_step i r pc sys)
  unfolding searcher_step
  searcher_step-IsLocked r s_resting e =
      of_cases (IsLocked ns ni nd) sys.writing sys _ (λ _. h)
        (λ free. record {
          readers =
              omega (arith, sum-update reads ns sys.searcher i s_testing lt, ap reads e, h.readers);
          writer = h.writer;
          either = inl free;
          inserters = h.inserters;
          deleters = h.deleters;
        })
  searcher_step-IsLocked r s_testing e =
      searcher_stays s_testing _ e
        (of_cases (λ p. reads p ≡ 1) (ltb 0 sys.dinners.dinner_count) _ _ (λ _. refl) (λ _. refl))
  searcher_step-IsLocked r s_drawing e = searcher_stays s_drawing _ e refl
  searcher_step-IsLocked r (s_looking to_find) e = searcher_stays (s_looking to_find) _ e refl
  searcher_step-IsLocked r (s_walking curr count to_find) e =
      searcher_stays (s_walking curr count to_find) _ e (
        of_cases (λ p. reads p ≡ 1) (count == to_find) _ _ (λ _. refl)
          (λ _. of_cases (λ p. reads p ≡ 1) (curr == 0) _ _ (λ _. refl) (λ _. refl)))
  searcher_step-IsLocked r s_leaving e = record {
    readers = omega (arith, sum-update reads ns sys.searcher i s_resting lt, ap reads e, h.readers);
    writer = h.writer;
    either = fewer h.either;
    inserters = h.inserters;
    deleters = h.deleters;
  }
    where
      fewer :
          (sys.writing ≡ false) ⊎ (sys.readers ≡ 0) → (sys.writing ≡ false) ⊎ (sys.readers - 1 ≡ 0)
      fewer (inl free) = inl free
      fewer (inr none_reads) = inr (omega (arith, none_reads))
  searcher_step-IsLocked r s_crashed e = h
