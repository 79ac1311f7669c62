-- ===== src/Buffer.antt =====
-- Producer and consumer, concur/concurrent1/concurrent1.c: the buffer of 32 slots and the two
-- semaphores, and one step of a thread per statement that touches them. A step of a thread that
-- waits for a semaphore at 0 leaves the state as it is; `sem_getvalue` serves a message only.
mod Slots
mod Invariant
mod Tests
use cs.Common.{ℕ, ◌+◌, ◌-◌, ◌%◌, ◌==◌, if◌then◌else◌, update}

-- Where the producer stands; `scan i` reads `buff[i].b`, the next two write the slot.
pub data Pro : Type 0 where
  loop wait : Pro
  scan put_a put_b : ℕ → Pro
  post done : Pro

-- Where the consumer stands.
pub data Con : Type 0 where
  loop wait : Con
  scan zero_a zero_b : ℕ → Con
  post done : Con

pub record State : Type 0 where
  pub sem_c : ℕ
  pub sem_p : ℕ
  pub a : ℕ → ℕ
  pub b : ℕ → ℕ
  pub pro_left : ℕ
  pub con_left : ℕ
  pub pro : Pro
  pub con : Con

-- `main` with the numbers of its two arguments
unfoldable pub init : (no_p no_c : ℕ) → State
init no_p no_c = record {
  sem_c = 0;
  sem_p = 32;
  a = λ _. 0;
  b = λ _. 0;
  pro_left = no_p;
  con_left = no_c;
  pro = Pro.loop;
  con = Con.loop;
}

-- The next statement of `producers`; `r` is the value of `rand()` that it uses.
unfoldable pub produce : Pro → (r : ℕ) → State → State
produce loop r st =
    if st.pro_left == 0
    then record st { pro = Pro.done }
    else record st { pro_left = st.pro_left - 1; pro = Pro.wait }
produce wait r st =
    if st.sem_p == 0 then st else record st { sem_p = st.sem_p - 1; pro = Pro.scan 0 }
produce (scan i) r st =
    if i == 32
    then record st { pro = Pro.post }
    else if st.b i == 0
    then record st { pro = put_a i }
    else record st { pro = Pro.scan (i + 1) }
produce (put_a i) r st = record st { a = update st.a i (r % 10); pro = put_b i }
produce (put_b i) r st = record st { b = update st.b i (2 + r % 8); pro = Pro.post }
produce post r st = record st { sem_c = st.sem_c + 1; pro = Pro.loop }
produce done r st = st

-- The next statement of `consumers`.
unfoldable pub consume : Con → State → State
consume loop st =
    if st.con_left == 0
    then record st { con = Con.done }
    else record st { con_left = st.con_left - 1; con = Con.wait }
consume wait st = if st.sem_c == 0 then st else record st { sem_c = st.sem_c - 1; con = Con.scan 0 }
consume (scan i) st =
    if i == 32
    then record st { con = Con.post }
    else if st.b i == 0
    then record st { con = Con.scan (i + 1) }
    else record st { con = zero_a i }
consume (zero_a i) st = record st { a = update st.a i 0; con = zero_b i }
consume (zero_b i) st = record st { b = update st.b i 0; con = Con.post }
consume post st = record st { sem_p = st.sem_p + 1; con = Con.loop }
consume done st = st

-- The states that the two threads can bring about, in any interleaving.
pub data Reachable (no_p no_c : ℕ) : State → Type 0 where
  start : Reachable no_p no_c (init no_p no_c)
  by_producer :
      (st : State) (r : ℕ) → Reachable no_p no_c st → Reachable no_p no_c (produce st.pro r st)
  by_consumer : (st : State) → Reachable no_p no_c st → Reachable no_p no_c (consume st.con st)
