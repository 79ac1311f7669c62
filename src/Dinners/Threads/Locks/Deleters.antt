-- ===== src/Dinners/Threads/Locks/Deleters.antt =====
-- The locks over a step of a deleter of concur/concurrent3/3way.c.
use cs.Common.{
  of_cases, ℕ, ◌+◌, ◌≤◌, ◌<◌, ◌≡◌, ◌⊎◌, inl, inr, refl, ap, Bool, true, false, arith, ltb, ◌==◌,
  sum-update, le-sum,
}
use cs.Dinners.{unlink_node}
use cs.Dinners.Threads.{
  DeleterPc, d_resting, d_second, d_testing, d_third, d_drawing, d_entering, d_walking, d_unlinking,
  d_counting, d_freeing, d_unlock_deleters, d_unlock_inserters, d_unlock_searchers, d_crashed,
  System, deleter_goes, deleter_step,
}
use cs.Dinners.Threads.Locks.{writes, excludes, deletes, one_if, IsLocked}

module _ (ns ni nd i : ℕ) (sys : System) (lt : i < nd) (h : IsLocked ns ni nd sys) where
  -- A deleter that takes and returns no lock.
  deleter_stays :
      (pc p : DeleterPc) (sys' : System)
      → sys.deleter i ≡ pc
      → writes p ≡ writes pc
      → excludes p ≡ excludes pc
      → deletes p ≡ deletes pc
      → IsLocked ns ni nd
          (record (deleter_goes sys i p) { dinners = sys'.dinners; allocated = sys'.allocated })
  deleter_stays pc p sys' e same_w same_x same_d = record {
    readers = h.readers;
    writer = omega (arith, sum-update writes nd sys.deleter i p lt, ap writes e, same_w, h.writer);
    either = h.either;
    inserters =
        omega
          (arith, sum-update excludes nd sys.deleter i p lt, ap excludes e, same_x, h.inserters);
    deleters =
        omega (arith, sum-update deletes nd sys.deleter i p lt, ap deletes e, same_d, h.deleters);
  }

  -- The locks after a step from `pc` to `p` that leaves them `w`, `x` and `d`.
  deleter_takes :
      (pc p : DeleterPc) (w x d : Bool)
      → sys.deleter i ≡ pc
      → (w ≡ false) ⊎ (sys.readers ≡ 0)
      → one_if sys.writing + writes p ≡ one_if w + writes pc
      → one_if sys.inserters_lock + excludes p ≡ one_if x + excludes pc
      → one_if sys.deleters_lock + deletes p ≡ one_if d + deletes pc
      → IsLocked ns ni nd
          (record (deleter_goes sys i p) { writing = w; inserters_lock = x; deleters_lock = d })
  deleter_takes pc p w x d e none_reads ew ex ed = record {
    readers = h.readers;
    writer = omega (arith, sum-update writes nd sys.deleter i p lt, ap writes e, ew, h.writer);
    either = none_reads;
    inserters =
        omega (arith, sum-update excludes nd sys.deleter i p lt, ap excludes e, ex, h.inserters);
    deleters =
        omega (arith, sum-update deletes nd sys.deleter i p lt, ap deletes e, ed, h.deleters);
  }

  -- A lock that a deleter has is taken.
  taken :
      (pc : DeleterPc)
      → sys.deleter i ≡ pc
      → (writes pc ≤ one_if sys.writing)
        × (excludes pc ≤ one_if sys.inserters_lock)
        × (deletes pc ≤ one_if sys.deleters_lock)
  taken pc e = (
    omega (arith, le-sum writes nd sys.deleter i lt, ap writes e, h.writer),
    omega (arith, le-sum excludes nd sys.deleter i lt, ap excludes e, h.inserters),
    omega (arith, le-sum deletes nd sys.deleter i lt, ap deletes e, h.deleters),
  )

  pub deleter_step-IsLocked :
      (r : ℕ) (pc : DeleterPc) → sys.deleter i ≡ pc → IsLocked ns ni nd (deleter_step i r pc sys)
  unfolding deleter_step
  deleter_step-IsLocked r d_resting e =
      of_cases (IsLocked ns ni nd) sys.writing sys _ (λ _. h)
        (λ free.
          of_cases (IsLocked ns ni nd) (sys.readers == 0) _ sys
            (λ unread.
              deleter_takes d_resting d_second true sys.inserters_lock sys.deleters_lock e
                (inr (ground arith)) (ground arith) (omega arith) (omega arith))
            (λ _. h))
  deleter_step-IsLocked r d_second e =
      of_cases (IsLocked ns ni nd) sys.inserters_lock sys _ (λ _. h)
        (λ free.
          deleter_takes d_second d_testing sys.writing true sys.deleters_lock e h.either
            (omega arith) (ground arith) (omega arith))
  deleter_step-IsLocked r d_testing e =
      of_cases (λ p. IsLocked ns ni nd (deleter_goes sys i p)) (ltb 0 sys.dinners.dinner_count) _ _
        (λ _. deleter_stays d_testing d_third sys e refl refl refl)
        (λ _. deleter_stays d_testing d_unlock_inserters sys e refl refl refl)
  deleter_step-IsLocked r d_third e =
      of_cases (IsLocked ns ni nd) sys.deleters_lock sys _ (λ _. h)
        (λ free.
          deleter_takes d_third d_drawing sys.writing sys.inserters_lock true e h.either
            (omega arith) (omega arith) (ground arith))
  deleter_step-IsLocked r d_drawing e = deleter_stays d_drawing _ sys e refl refl refl
  deleter_step-IsLocked r (d_entering t) e = deleter_stays (d_entering t) _ sys e refl refl refl
  deleter_step-IsLocked r (d_walking prev curr count t) e =
      of_cases (λ p. IsLocked ns ni nd (deleter_goes sys i p)) (count == t) _ _
        (λ _. deleter_stays (d_walking prev curr count t) _ sys e refl refl refl)
        (λ _.
          of_cases (λ p. IsLocked ns ni nd (deleter_goes sys i p)) (curr == 0) _ _
            (λ _. deleter_stays (d_walking prev curr count t) _ sys e refl refl refl)
            (λ _. deleter_stays (d_walking prev curr count t) _ sys e refl refl refl))
  deleter_step-IsLocked r (d_unlinking prev curr) e =
      of_cases (IsLocked ns ni nd) (curr == 0) _ _
        (λ _. deleter_stays (d_unlinking prev curr) d_crashed sys e refl refl refl)
        (λ _.
          deleter_stays (d_unlinking prev curr) (d_counting curr)
            (record sys { dinners = unlink_node sys.dinners prev curr }) e refl refl refl)
  deleter_step-IsLocked r (d_counting curr) e =
      deleter_stays (d_counting curr) (d_freeing curr) (deleter_step i r (d_counting curr) sys) e
        refl refl refl
  deleter_step-IsLocked r (d_freeing curr) e =
      deleter_stays (d_freeing curr) d_unlock_deleters (deleter_step i r (d_freeing curr) sys) e
        refl refl refl
  deleter_step-IsLocked r d_unlock_deleters e =
      let (w, x, d) = taken d_unlock_deleters e in
      deleter_takes d_unlock_deleters d_unlock_inserters sys.writing sys.inserters_lock false e
        h.either (omega arith) (omega arith) (ground (arith, d))
  deleter_step-IsLocked r d_unlock_inserters e =
      let (w, x, d) = taken d_unlock_inserters e in
      deleter_takes d_unlock_inserters d_unlock_searchers sys.writing false sys.deleters_lock e
        h.either (omega arith) (ground (arith, x)) (omega arith)
  deleter_step-IsLocked r d_unlock_searchers e =
      let (w, x, d) = taken d_unlock_searchers e in
      deleter_takes d_unlock_searchers d_resting false sys.inserters_lock sys.deleters_lock e
        (inl refl) (ground (arith, w)) (omega arith) (omega arith)
  deleter_step-IsLocked r d_crashed e = h
