-- ===== src/Barbershop/Tests.antt =====
-- One chair and two customers.
use cs.Common.{dec, positive, negsuc, ℕ, ◌<◌, ◌≡◌, refl, arith}
use cs.Barbershop.{State, init, customer_step, Reachable, start, by_customer}
use cs.Barbershop.Service.{IsServing, Reachable-IsServing}

-- A step of customer `i`.
abbrev turn : ℕ → State → State
turn i st = customer_step i (st.customer i) st

-- Both test before one of them takes the chair: the count is -1 then.
abbrev both : State
both = turn 1 (turn 1 (turn 0 (turn 0 (turn 1 (turn 0 (init 1))))))

both_count : both.waiting_chair_count ≡ negsuc 0
unfolding init customer_step positive dec
both_count = refl

abbrev seat : State
seat = turn 0 both

turns : (i : ℕ) (st : State) → i < 2 → Reachable 1 2 st → Reachable 1 2 (turn i st)
turns i st lt r = by_customer st i lt r

reach : Reachable 1 2 seat
reach =
    let r1 = turns 0 (init 1) (omega arith) start in
    let r2 = turns 1 _ (omega arith) r1 in
    let r3 = turns 0 _ (omega arith) r2 in
    let r4 = turns 0 _ (omega arith) r3 in
    let r5 = turns 1 _ (omega arith) r4 in
    let r6 = turns 1 _ (omega arith) r5 in turns 0 both (omega arith) r6

Reachable-IsServing_example : IsServing 2 seat
Reachable-IsServing_example = Reachable-IsServing 1 2 seat reach
