-- ===== src/SharedResource/Tests.antt =====
-- Customers of the resource.
use cs.Common.{pos, ℕ, ◌<◌, ◌≡◌, false, ◌==◌}
use cs.SharedResource.{using_it, blocked, gone, State, init, Reachable}
use cs.SharedResource.Crowd.{IsThree, customers_crowd}
use cs.SharedResource.Stuck.{customers_block}

customers_crowd_example :
    (st : State) × Reachable 4 init st
    × ((i : ℕ) → i < 4 → st.customer i ≡ using_it)
    × IsThree st.resource_count 4
customers_crowd_example = customers_crowd 4

customers_block_example :
    (st : State) × Reachable 6 init st
    × (st.customer 3 ≡ blocked)
    × (st.resource_count ≡ pos 2)
    × ((i : ℕ) → i < 6 → (i == 3) ≡ false → st.customer i ≡ gone)
    × ((st' : State) → Reachable 6 st st' → st' ≡ st)
customers_block_example = customers_block 2
