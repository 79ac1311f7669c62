-- ===== src/SharedResource/Stuck.antt =====
-- A customer is blocked for good, concur/concurrent5/concurrent5A.c.
use mathlib.Core.Path.{subst}
use cs.Common.{
  Bool-cases, ◌==◌, zero, suc, ◌+◌, ◌≤◌, arith, update, positive, dec, inc, pos, if◌then◌else◌, ltb,
  ℕ, ◌<◌, ◌≡◌, ◌⊎◌, inl, inr, refl, sym, ap, ◌∙◌, true, false,
}
use cs.SharedResource.{
  arriving, taking, using_it, storing_less, storing_more, init, CustomerPc, blocked, gone,
  HandlerPc, testing, unlocking, State, is_three, handler_step, customer_step, Reachable, start,
  by_handler, by_customer,
}

-- Every customer has returned or waits for the mutex, which is locked, while the handler tests a
-- count that is not three.
pub record IsStuck (n : ℕ) (st : State) : Type 0 where
  pub handler : st.handler ≡ testing
  pub count : is_three st.resource_count ≡ false
  pub locked : st.resource_mutex ≡ true
  pub idle : (i : ℕ) → i < n → (st.customer i ≡ blocked) ⊎ (st.customer i ≡ gone)

handler-same :
    (st : State) (pc : HandlerPc)
    → pc ≡ testing
    → st.handler ≡ testing
    → is_three st.resource_count ≡ false
    → handler_step pc st ≡ st
unfolding handler_step
handler-same st testing at e off = rw (off, sym e) refl
handler-same st unlocking at e off = absurd (cc at)

customer-same :
    (st : State) (i : ℕ)
    → st.resource_mutex ≡ true
    → (st.customer i ≡ blocked) ⊎ (st.customer i ≡ gone)
    → customer_step i (st.customer i) st ≡ st
unfolding customer_step
customer-same st i locked (inl waits) = rw (waits, locked) refl
customer-same st i locked (inr left) = rw left refl

stuck_for_good : (n : ℕ) (st st' : State) → IsStuck n st → Reachable n st st' → st' ≡ st
stuck_for_good n st st' s start = refl
stuck_for_good n st st' s (by_handler st1 r) =
    let same = stuck_for_good n st st1 s r in
    ap (λ (z : State). handler_step z.handler z) same
    ∙ handler-same st st.handler s.handler s.handler s.count
stuck_for_good n st st' s (by_customer st1 i lt r) =
    let same = stuck_for_good n st st1 s r in
    ap (λ (z : State). customer_step i (z.customer i) z) same
    ∙ customer-same st i s.locked (s.idle i lt)

-- The count is three, nobody waits, and the customers stand as `f` says.
unfoldable pub at_rest : (ℕ → CustomerPc) → State
at_rest f = record {
  resource_count = pos 3;
  resource_mutex = false;
  handler = testing;
  customer = f;
}

-- Customer `i` has come, used the resource alone, and left.
after_visit : (i : ℕ) → (ℕ → CustomerPc) → ℕ → CustomerPc
after_visit i f =
    update
      (update (update (update (update f i taking) i (storing_less (pos 3))) i using_it) i
        (storing_more (pos 2)))
      i gone

module _ (n : ℕ) (from : State) where
  -- A step of a customer that stands at `pc`.
  goes_on :
      (st : State) (i : ℕ) (pc : CustomerPc)
      → i < n
      → st.customer i ≡ pc
      → Reachable n from st
      → Reachable n from (customer_step i pc st)
  goes_on st i pc lt e r =
      subst (λ q. Reachable n from (customer_step i q st)) e (by_customer st i lt r)

  -- A customer comes, uses the resource and leaves, alone.
  visits :
      (i : ℕ) (f : ℕ → CustomerPc)
      → i < n
      → f i ≡ arriving
      → Reachable n from (at_rest f)
      → Reachable n from (at_rest (after_visit i f))
  unfolding at_rest after_visit customer_step positive dec inc
  visits i f lt e r =
      let r1 = goes_on (at_rest f) i arriving lt e r in
      let r2 = goes_on _ i taking lt (ground arith) r1 in
      let r3 = goes_on _ i (storing_less (pos 3)) lt (ground arith) r2 in
      let r4 = goes_on _ i using_it lt (ground arith) r3 in
      goes_on _ i (storing_more (pos 2)) lt (ground arith) r4

-- The customers from 4 on when the first `m` of them have left again.
visited : ℕ → ℕ → CustomerPc
visited zero i = arriving
visited (suc m) i = after_visit (m + 4) (visited m) i

visited-at :
    (m i : ℕ)
    → visited m i ≡ (if ltb i 4 then arriving else if ltb i (m + 4) then gone else arriving)
unfolding visited after_visit
visited-at zero i = ground arith
visited-at (suc m) i = ground (arith, visited-at m i)

visited-Reachable : (n m : ℕ) → m + 4 ≤ n → Reachable n init (at_rest (visited m))
unfolding visited init at_rest
visited-Reachable n zero le = start
visited-Reachable n (suc m) le =
    visits n init (m + 4) (visited m) (omega arith) (visited-at m (m + 4) ∙ ground arith)
      (visited-Reachable n m (omega arith))

module _ (n : ℕ) (f : ℕ → CustomerPc) (four : 4 ≤ n) (before : (i : ℕ) → i < 4 → f i ≡ arriving)
    (r : Reachable n init (at_rest f)) where
  -- Three customers take their shares; the fourth locks the mutex, tests again and waits for it.
  -- Customers 0 and 1 read the same count before they write it back.
  loses_update :
      (st : State) × Reachable n init st
      × (st.handler ≡ testing)
      × (st.resource_count ≡ pos 2)
      × (st.resource_mutex ≡ true)
      × (st.customer 0 ≡ gone)
      × (st.customer 1 ≡ gone)
      × (st.customer 2 ≡ gone)
      × (st.customer 3 ≡ blocked)
      × ((i : ℕ) → 4 ≤ i → st.customer i ≡ f i)
  unfolding at_rest customer_step positive dec inc
  loses_update =
      let go = goes_on n init in
      let p0 : 0 < n = omega arith in
      let b0 = before 0 (omega arith) in
      let p1 : 1 < n = omega arith in
      let b1 = before 1 (omega arith) in
      let p2 : 2 < n = omega arith in
      let b2 = before 2 (omega arith) in
      let p3 : 3 < n = omega arith in
      let b3 = before 3 (omega arith) in
      let a_1 = go (at_rest f) 0 arriving p0 b0 r in
      let a_2 = go _ 0 taking p0 refl a_1 in
      let a_3 = go _ 0 (storing_less (pos 3)) p0 refl a_2 in
      let b_1 = go _ 1 arriving p1 b1 a_3 in
      let b_2 = go _ 1 taking p1 refl b_1 in
      let b_3 = go _ 1 (storing_less (pos 2)) p1 refl b_2 in
      let c_1 = go _ 2 arriving p2 b2 b_3 in
      let c_2 = go _ 2 taking p2 refl c_1 in
      let c_3 = go _ 2 (storing_less (pos 1)) p2 refl c_2 in
      let d_1 = go _ 3 arriving p3 b3 c_3 in
      let d_2 = go _ 3 blocked p3 refl d_1 in
      let d_3 = go _ 3 arriving p3 refl d_2 in
      let e_1 = go _ 0 using_it p0 refl d_3 in
      let e_2 = go _ 1 using_it p1 refl e_1 in
      let e_3 = go _ 0 (storing_more (pos 0)) p0 refl e_2 in
      let e_4 = go _ 1 (storing_more (pos 0)) p1 refl e_3 in
      let e_5 = go _ 2 using_it p2 refl e_4 in
      let e_6 = go _ 2 (storing_more (pos 1)) p2 refl e_5 in
      (_, e_6, refl, refl, refl, refl, refl, refl, refl, λ i le. ground arith)

leaves_idle :
    (m i : ℕ) (st : State)
    → i < m + 4
    → st.customer 0 ≡ gone
    → st.customer 1 ≡ gone
    → st.customer 2 ≡ gone
    → st.customer 3 ≡ blocked
    → ((j : ℕ) → 4 ≤ j → st.customer j ≡ visited m j)
    → (st.customer i ≡ blocked) ⊎ (st.customer i ≡ gone)
leaves_idle m zero st lt e0 e1 e2 e3 later = inr e0
leaves_idle m (suc zero) st lt e0 e1 e2 e3 later = inr e1
leaves_idle m (suc (suc zero)) st lt e0 e1 e2 e3 later = inr e2
leaves_idle m (suc (suc (suc zero))) st lt e0 e1 e2 e3 later = inl e3
leaves_idle m (suc (suc (suc (suc i)))) st lt e0 e1 e2 e3 later =
    let j = suc (suc (suc (suc i))) in
    inr (later j (omega arith) ∙ (visited-at m j ∙ ground (arith, lt)))

only_fourth :
    (i : ℕ) (st : State)
    → i < 4
    → (i == 3) ≡ false
    → st.customer 0 ≡ gone
    → st.customer 1 ≡ gone
    → st.customer 2 ≡ gone
    → st.customer i ≡ gone
only_fourth zero st lt ne e0 e1 e2 = e0
only_fourth (suc zero) st lt ne e0 e1 e2 = e1
only_fourth (suc (suc zero)) st lt ne e0 e1 e2 = e2
only_fourth (suc (suc (suc i))) st lt ne e0 e1 e2 = absurd (ground arith)

-- From four customers on, however many there are, there is a run after which customer 3 waits for
-- the mutex for good: all others have left, the count is two although nobody uses the resource, and
-- no further run of the handler and the customers changes anything.
pub customers_block :
    (m : ℕ)
    → (st : State) × Reachable (m + 4) init st
      × (st.customer 3 ≡ blocked)
      × (st.resource_count ≡ pos 2)
      × ((i : ℕ) → i < m + 4 → (i == 3) ≡ false → st.customer i ≡ gone)
      × ((st' : State) → Reachable (m + 4) st st' → st' ≡ st)
unfolding is_three
customers_block m =
    let (st, r, at, count, locked, e0, e1, e2, e3, later) =
      loses_update (m + 4) (visited m) (omega arith) (λ i lt. visited-at m i ∙ ground arith)
        (visited-Reachable (m + 4) m (omega arith)) in
    let s : IsStuck (m + 4) st = record {
      handler = at;
      count = ap is_three count;
      locked = locked;
      idle = λ i lt. leaves_idle m i st lt e0 e1 e2 e3 later;
    } in
    (
      st,
      r,
      e3,
      count,
      λ i lt ne. elim (s.idle i lt) [
        | inr left ↦ left
        | inl waits ↦ elim (Bool-cases (ltb i 4)) [
          | inl low ↦ only_fourth i st (ground arith) ne e0 e1 e2
          | inr high ↦ later i (ground arith) ∙ (visited-at m i ∙ ground (arith, lt))
        ]
      ],
      λ st' q. stuck_for_good (m + 4) st st' s q,
    )
