-- ===== src/Dinners/Threads/Locks/Inserters.antt =====
-- The locks over a step of an inserter of concur/concurrent3/3way.c.
use cs.Common.{of_cases, ℕ, ◌<◌, ◌≡◌, refl, ap, arith, ◌==◌, sum-update}
use cs.Dinners.Threads.{
  InserterPc, i_resting, i_waiting, i_finding, i_scanning, i_linking, i_counting, i_leaving,
  i_crashed, System, inserter_goes, inserter_step,
}
use cs.Dinners.Threads.Locks.{inserts, one_if, one_if-le, IsLocked}

module _ (ns ni nd i : ℕ) (sys : System) (lt : i < ni) (h : IsLocked ns ni nd sys) where
  -- An inserter that stays between its lock and its unlock, or outside, changes no lock.
  inserter_stays :
      (pc p : InserterPc) (sys' : System)
      → sys.inserter i ≡ pc
      → inserts p ≡ inserts pc
      → IsLocked ns ni nd
          (record (inserter_goes sys i p) { dinners = sys'.dinners; allocated = sys'.allocated })
  inserter_stays pc p sys' e same = record {
    readers = h.readers;
    writer = h.writer;
    either = h.either;
    inserters =
        omega (arith, sum-update inserts ni sys.inserter i p lt, ap inserts e, same, h.inserters);
    deleters = h.deleters;
  }

  pub inserter_step-IsLocked :
      (new : ℕ) (pc : InserterPc)
      → sys.inserter i ≡ pc
      → IsLocked ns ni nd (inserter_step i new pc sys)
  unfolding inserter_step
  inserter_step-IsLocked new i_resting e =
      inserter_stays i_resting (i_waiting new) (inserter_step i new i_resting sys) e refl
  inserter_step-IsLocked new (i_waiting n) e =
      of_cases (IsLocked ns ni nd) sys.inserters_lock sys _ (λ _. h)
        (λ free. record {
          readers = h.readers;
          writer = h.writer;
          either = h.either;
          inserters = omega (
            arith,
            sum-update inserts ni sys.inserter i (i_finding n) lt,
            ap inserts e,
            h.inserters,
            ap one_if free,
          );
          deleters = h.deleters;
        })
  inserter_step-IsLocked new (i_finding n) e =
      inserter_stays (i_finding n) _ sys e (
        of_cases (λ p. inserts p ≡ 1) (sys.dinners.turkey_dinners == 0) _ _ (λ _. refl) (λ _. refl))
  inserter_step-IsLocked new (i_scanning n last) e = inserter_stays (i_scanning n last) _ sys e (
      of_cases (λ p. inserts p ≡ 1) (last == 0) _ _ (λ _. refl)
        (λ _.
          of_cases (λ p. inserts p ≡ 1) (sys.dinners.next_dinner last == 0) _ _ (λ _. refl)
            (λ _. refl)))
  inserter_step-IsLocked new i_crashed e = h
  inserter_step-IsLocked new (i_linking n last) e =
      inserter_stays (i_linking n last) i_counting (inserter_step i new (i_linking n last) sys) e
        refl
  inserter_step-IsLocked new i_counting e =
      inserter_stays i_counting i_leaving (inserter_step i new i_counting sys) e refl
  inserter_step-IsLocked new i_leaving e = record {
    readers = h.readers;
    writer = h.writer;
    either = h.either;
    inserters = omega (
      arith,
      sum-update inserts ni sys.inserter i i_resting lt,
      ap inserts e,
      h.inserters,
      one_if-le sys.inserters_lock,
    );
    deleters = h.deleters;
  }
