-- ===== src/Philosophers/Tests.antt =====
-- Runs of the dining philosophers.
use cs.Common.{ℕ, zero, suc, refl, ◌<◌, ◌≤◌, ◌≡◌, inl, true, false, ◌&&◌, arith, List, [], ◌∷◌}
use cs.Philosophers.{take_left, State, init, step, Reachable, start, go, waits, is_blocked}
use cs.Philosophers.Count.{count}
use cs.Philosophers.Invariant.{eats, IsFair, Reachable-IsFair, eats_two}
use cs.Philosophers.Progress.{forks_moves}

-- `n` steps of the philosopher `i`.
steps : ℕ → ℕ → State → State
unfolding step
steps zero i st = st
steps (suc n) i st = steps n i (step st i)

steps-Reachable : (n i : ℕ) (st : State) → i < 5 → Reachable st → Reachable (steps n i st)
unfolding steps
steps-Reachable zero i st lt r = r
steps-Reachable (suc n) i st lt r = steps-Reachable n i (step st i) lt (go st i lt r)

-- The runs of a schedule: pairs of a number of steps and a philosopher.
run : List (ℕ × ℕ) → State → State
unfolding steps
run [] st = st
run ((n, i) ∷ s) st = run s (steps n i st)

-- Each eats once, but the thread 0 sets `phi[0]` between `sem_post(&sem_phi[0])` and `phi[0] = 0`
-- of the thread 4: in the second round `phi[0]` stays false, nobody posts, and all five wait.
lost_post : State
unfolding run init
lost_post =
    run
      ((16, 0)
        ∷ (17, 1)
        ∷ (18, 2)
        ∷ (19, 3)
        ∷ (14, 4)
        ∷ (8, 0)
        ∷ (1, 4)
        ∷ (9, 0)
        ∷ (14, 4)
        ∷ (17, 1)
        ∷ (17, 2)
        ∷ (17, 3)
        ∷ (17, 4)
        ∷ [])
      init

all_wait :
    (is_blocked lost_post 0
      && is_blocked lost_post 1
      && is_blocked lost_post 2
      && is_blocked lost_post 3
      && is_blocked lost_post 4)
    ≡ true
unfolding lost_post waits
all_wait = refl

-- The philosophers 0 and 1 have two forks, 2 waits for a right one and 3 for a left one.
abbrev busy : State
busy = steps 6 3 (steps 6 2 (steps 10 1 (steps 10 0 init)))

busy-Reachable : Reachable busy
busy-Reachable = steps-Reachable 6 3 _ (omega arith) (
    steps-Reachable 6 2 _ (omega arith)
      (steps-Reachable 10 1 _ (omega arith) (steps-Reachable 10 0 init (omega arith) start)))

Reachable-IsFair_example : IsFair busy
Reachable-IsFair_example = Reachable-IsFair busy busy-Reachable

-- One step more, and the philosopher 0 eats.
abbrev eating : State
eating = steps 1 0 busy

eats_now : 0 < eats (eating.pc 0)
unfolding steps init
eats_now = omega arith

eats_two_example : (count 5 eats eating.pc ≤ 2) × (eating.forks 0 ≡ 2)
eats_two_example =
    eats_two eating 0 (steps-Reachable 1 0 busy (omega arith) busy-Reachable) eats_now

waits_left : (busy.pc 3 ≡ take_left) × (is_blocked busy 3 ≡ true)
unfolding steps init waits
waits_left = (refl, refl)

forks_moves_example : (j : ℕ) × (j < 5) × (is_blocked busy j ≡ false)
forks_moves_example = forks_moves busy 3 busy-Reachable (inl waits_left.0) waits_left.1
