-- ===== src/Barbershop/Service.antt =====
-- Who is served, concur/concurrent4/barbershop.c.
use cs.Common.{
  sum, sum-update, sum-const, ℕ, ◌+◌, ◌<◌, ◌≡◌, inl, inr, refl, ap, Bool, true, false, arith,
  if◌then◌else◌, Bool-cases,
}
use cs.Barbershop.{
  positive, BarberPc, asleep, cutting, CustomerPc, arriving, counted, waiting, seated, ready, gone,
  storing_less, storing_more, State, init, barber_step, customer_step, Reachable, start, by_barber,
  by_customer,
}

-- Whether a customer has the chair and was not called yet.
abbrev pub sits : CustomerPc → ℕ
sits seated = 1
sits (storing_more seen) = 1
sits ready = 1
sits pc = 0

-- The barber at work.
abbrev pub cuts : BarberPc → ℕ
cuts asleep = 0
cuts cutting = 1

-- The customers with the chair, a call that waits for the barber, and the barber at work: one in all
-- while the chair is locked.
abbrev pub IsServing : ℕ → State → Type 0
IsServing n st =
    sum sits n st.customer + (if st.hair_cut_mutex then 0 else 1) + cuts st.barber
    ≡ (if st.barber_chair_mutex then 1 else 0)

barber_step-IsServing :
    (n : ℕ) (st : State) (pc : BarberPc)
    → st.barber ≡ pc
    → IsServing n st
    → IsServing n (barber_step pc st)
unfolding barber_step
barber_step-IsServing n st asleep e h =
    let idle : cuts st.barber ≡ 0 = ap cuts e in
    elim (Bool-cases st.hair_cut_mutex) [
      | inl locked ↦ ground (arith, h)
      | inr open_now ↦ ground (arith, idle, h)
    ]
barber_step-IsServing n st cutting e h =
    let busy : cuts st.barber ≡ 1 = ap cuts e in ground (arith, busy, h)

sits-tested : (t : Bool) → sits (if t then counted else gone) ≡ 0
sits-tested true = refl
sits-tested false = refl

customer_step-IsServing :
    (n i : ℕ) (st : State) (pc : CustomerPc)
    → i < n
    → st.customer i ≡ pc
    → IsServing n st
    → IsServing n (customer_step i pc st)
unfolding customer_step
customer_step-IsServing n i st arriving lt e h =
    let next = if positive st.waiting_chair_count then counted else gone in
    let same : sits next ≡ 0 = sits-tested (positive st.waiting_chair_count) in
    ground (arith, sum-update sits n st.customer i next lt, ap sits e, same, h)
customer_step-IsServing n i st counted lt e h =
    ground (
      arith,
      sum-update sits n st.customer i (storing_less st.waiting_chair_count) lt,
      ap sits e,
      h,
    )
customer_step-IsServing n i st (storing_less seen) lt e h =
    ground (arith, sum-update sits n st.customer i waiting lt, ap sits e, h)
customer_step-IsServing n i st waiting lt e h = elim (Bool-cases st.barber_chair_mutex) [
  | inl locked ↦ ground (arith, h)
  | inr free ↦ ground (arith, sum-update sits n st.customer i seated lt, ap sits e, h)
]
customer_step-IsServing n i st seated lt e h =
    ground (
      arith,
      sum-update sits n st.customer i (storing_more st.waiting_chair_count) lt,
      ap sits e,
      h,
    )
customer_step-IsServing n i st (storing_more seen) lt e h =
    ground (arith, sum-update sits n st.customer i ready lt, ap sits e, h)
customer_step-IsServing n i st ready lt e h =
    ground (arith, sum-update sits n st.customer i gone lt, ap sits e, h)
customer_step-IsServing n i st gone lt e h = h

-- In every interleaving, as long as the chair is locked there is one of these and only one: a
-- customer that has the chair, a call that waits for the barber, or the barber at work; while it is
-- not locked there is none. So the barber works for one customer at a time and never without one.
pub Reachable-IsServing : (chairs n : ℕ) (st : State) → Reachable chairs n st → IsServing n st
unfolding init
Reachable-IsServing chairs n st start = omega (arith, sum-const sits n arriving refl)
Reachable-IsServing chairs n st (by_barber st0 r) =
    barber_step-IsServing n st0 st0.barber refl (Reachable-IsServing chairs n st0 r)
Reachable-IsServing chairs n st (by_customer st0 i lt r) =
    customer_step-IsServing n i st0 (st0.customer i) lt refl (Reachable-IsServing chairs n st0 r)
