-- ===== src/Buffer/Tests.antt =====
-- A run of the producer and the consumer.
use cs.Common.{ℕ, zero, suc, refl, ◌+◌, ◌≤◌, ◌<◌, ◌≡◌, ◌⊎◌, inl}
use cs.Buffer.{Pro, Con, State, init, produce, consume, Reachable, start, by_producer, by_consumer}
use cs.Buffer.Invariant.{IsSound, Reachable-IsSound, scans_succeed}

-- `n` steps of the producer, `n` steps of the consumer.
producer_steps : ℕ → ℕ → State → State
producer_steps zero r st = st
producer_steps (suc n) r st = producer_steps n r (produce st.pro r st)

consumer_steps : ℕ → State → State
consumer_steps zero st = st
consumer_steps (suc n) st = consumer_steps n (consume st.con st)

producer_steps-Reachable :
    {no_p no_c : ℕ} (n r : ℕ) (st : State)
    → Reachable no_p no_c st
    → Reachable no_p no_c (producer_steps n r st)
unfolding producer_steps
producer_steps-Reachable zero r st h = h
producer_steps-Reachable (suc n) r st h =
    producer_steps-Reachable n r (produce st.pro r st) (by_producer st r h)

consumer_steps-Reachable :
    {no_p no_c : ℕ} (n : ℕ) (st : State)
    → Reachable no_p no_c st
    → Reachable no_p no_c (consumer_steps n st)
unfolding consumer_steps
consumer_steps-Reachable zero st h = h
consumer_steps-Reachable (suc n) st h =
    consumer_steps-Reachable n (consume st.con st) (by_consumer st h)

-- An item is made, the producer scans for a second slot, and the consumer has found the item.
abbrev busy : State
busy = consumer_steps 3 (producer_steps 9 12 (init 5 5))

busy-Reachable : Reachable 5 5 busy
busy-Reachable =
    consumer_steps-Reachable 3 (producer_steps 9 12 (init 5 5))
      (producer_steps-Reachable 9 12 (init 5 5) start)

busy_scans : busy.pro ≡ Pro.scan 1
unfolding producer_steps consumer_steps init produce consume
busy_scans = refl

Reachable-IsSound_example : IsSound busy
Reachable-IsSound_example = Reachable-IsSound busy busy-Reachable

scans_succeed_example :
    ((i : ℕ) → (busy.pro ≡ Pro.scan i) ⊎ (busy.con ≡ Con.scan i) → i < 32)
    × (busy.sem_p + busy.sem_c ≤ 32)
scans_succeed_example = scans_succeed busy busy-Reachable

scans_first : 1 < 32
scans_first = scans_succeed_example.0 1 (inl busy_scans)
