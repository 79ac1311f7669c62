-- ===== src/Philosophers.antt =====
-- The dining philosophers, concur/concurrent2/concurrent2.c: the semaphores and arrays that the
-- five threads share, and one step of a thread per statement that touches them. A step of a thread
-- that waits for a semaphore at 0 leaves the state as it is; `sleep` and `rand` are no steps.
mod Count
mod Invariant
mod Progress
mod Tests
use cs.Common.{ℕ, ◌+◌, ◌-◌, Bool, true, false, ltb, ◌==◌, ◌<◌, if◌then◌else◌, update}

-- Where a philosopher stands: the statement it does next. `test k` reads `phi[k]`, `post k` and
-- `clear k` are the two statements of the loop over `i`.
pub data Pc : Type 0 where
  think rest enter take_left count_left take_right count_right mark : Pc
  test post clear : ℕ → Pc
  eat stop put_left uncount_left put_right uncount_right : Pc

pub record State : Type 0 where
  pub sem_left : ℕ
  pub sem_right : ℕ
  pub sem_phi : ℕ → ℕ
  pub phi : ℕ → Bool
  pub forks : ℕ → ℕ
  pub status : ℕ → ℕ
  pub pc : ℕ → Pc

-- `main`, up to the creation of the threads
unfoldable pub init : State
init = record {
  sem_left = 3;
  sem_right = 2;
  sem_phi = λ _. 1;
  phi = λ _. false;
  forks = λ _. 0;
  status = λ _. 0;
  pc = λ _. think;
}

abbrev pub at : State → ℕ → Pc → State
at st i p = record st { pc = update st.pc i p }

-- `phi_status[phi_no] = n`, `phi_forks[phi_no] = n`
abbrev set_status : State → ℕ → ℕ → State
set_status st i n = record st { status = update st.status i n }

abbrev set_forks : State → ℕ → ℕ → State
set_forks st i n = record st { forks = update st.forks i n }

-- The next statement of the thread `i` of `philosopher`, when it stands at the given one.
unfoldable pub act : Pc → State → ℕ → State
act think st i = at (set_status st i 1) i rest
act rest st i = at (set_status st i 0) i enter
act enter st i =
    if st.sem_phi i == 0
    then st
    else at (record st { sem_phi = update st.sem_phi i (st.sem_phi i - 1) }) i take_left
act take_left st i =
    if st.sem_left == 0 then st else at (record st { sem_left = st.sem_left - 1 }) i count_left
act count_left st i = at (set_forks st i (st.forks i + 1)) i take_right
act take_right st i =
    if st.sem_right == 0 then st else at (record st { sem_right = st.sem_right - 1 }) i count_right
act count_right st i = at (set_forks st i (st.forks i + 1)) i mark
act mark st i = at (record st { phi = update st.phi i true }) i (test 0)
act (test k) st i =
    if st.phi k then at st i (if ltb k 4 then test (k + 1) else post 0) else at st i eat
act (post k) st i = at (record st { sem_phi = update st.sem_phi k (st.sem_phi k + 1) }) i (clear k)
act (clear k) st i =
    at (record st { phi = update st.phi k false }) i (if ltb k 4 then post (k + 1) else eat)
act eat st i = at (set_status st i 2) i stop
act stop st i = at (set_status st i 0) i put_left
act put_left st i = at (record st { sem_left = st.sem_left + 1 }) i uncount_left
act uncount_left st i = at (set_forks st i (st.forks i - 1)) i put_right
act put_right st i = at (record st { sem_right = st.sem_right + 1 }) i uncount_right
act uncount_right st i = at (set_forks st i (st.forks i - 1)) i think

unfoldable pub step : State → ℕ → State
unfolding act
step st i = act (st.pc i) st i

-- The states that the five threads can bring about, in any interleaving.
pub data Reachable : State → Type 0 where
  start : Reachable init
  go : (st : State) (i : ℕ) → i < 5 → Reachable st → Reachable (step st i)

-- Whether a thread that stands at the statement waits for a semaphore that is 0.
unfoldable pub waits : Pc → State → ℕ → Bool
waits enter st i = st.sem_phi i == 0
waits take_left st i = st.sem_left == 0
waits take_right st i = st.sem_right == 0
waits _ st i = false

abbrev pub is_blocked : State → ℕ → Bool
is_blocked st i = waits (st.pc i) st i
