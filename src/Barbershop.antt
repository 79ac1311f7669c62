-- ===== src/Barbershop.antt =====
-- The barber shop, concur/concurrent4/barbershop.c: one statement of a thread is a step, but
-- `waiting_chair_count--` and `waiting_chair_count++` are two, the read and the write. `main`
-- creates the customers' threads; one that is not created yet stands at its first statement.
-- Messages, `sleep` and `rand` are left out.
pub mod Service
mod Tests
use cs.Common.{ℤ, pos, inc, dec, positive, ℕ, ◌<◌, Bool, true, false, if◌then◌else◌, update}

-- Where `barber` stands: before the lock of `hair_cut_mutex`, or before the unlock of
-- `barber_chair_mutex`.
pub data BarberPc : Type 0 where
  asleep cutting : BarberPc

-- Where a `customer` stands: before the test, `--` and the write of the value that it has read, the
-- lock of the chair, `++` and the write of the value read, the unlock of `hair_cut_mutex`, and at
-- the end.
pub data CustomerPc : Type 0 where
  arriving counted waiting seated ready gone : CustomerPc
  storing_less storing_more : (seen : ℤ) → CustomerPc

-- The shared variables, and the threads; a mutex is true when it is locked.
pub record State : Type 0 where
  pub waiting_chair_count : ℤ
  pub barber_chair_mutex : Bool
  pub hair_cut_mutex : Bool
  pub barber : BarberPc
  pub customer : ℕ → CustomerPc

-- `main`
unfoldable pub init : (num_waiting_chairs : ℕ) → State
init n = record {
  waiting_chair_count = pos n;
  barber_chair_mutex = false;
  hair_cut_mutex = true;
  barber = asleep;
  customer = λ i. arriving;
}

-- `barber`; a lock that is taken leaves it where it stands.
unfoldable pub barber_step : BarberPc → State → State
barber_step asleep st =
    if st.hair_cut_mutex then st else record st { hair_cut_mutex = true; barber = cutting }
barber_step cutting st = record st { barber_chair_mutex = false; barber = asleep }

abbrev pub goes : State → ℕ → CustomerPc → State
goes st i pc = record st { customer = update st.customer i pc }

-- `customer`
unfoldable pub customer_step : (i : ℕ) → CustomerPc → State → State
customer_step i arriving st = goes st i (if positive st.waiting_chair_count then counted else gone)
customer_step i counted st = goes st i (storing_less st.waiting_chair_count)
customer_step i (storing_less seen) st = record (goes st i waiting) {
  waiting_chair_count = dec seen;
}
customer_step i waiting st =
    if st.barber_chair_mutex then st else record (goes st i seated) { barber_chair_mutex = true }
customer_step i seated st = goes st i (storing_more st.waiting_chair_count)
customer_step i (storing_more seen) st = record (goes st i ready) { waiting_chair_count = inc seen }
customer_step i ready st = record (goes st i gone) { hair_cut_mutex = false }
customer_step i gone st = st

-- The states that the barber and `num_customers` customers can bring about, in any interleaving.
pub data Reachable (chairs num_customers : ℕ) : State → Type 0 where
  start : Reachable chairs num_customers (init chairs)
  by_barber :
      (st : State)
      → Reachable chairs num_customers st
      → Reachable chairs num_customers (barber_step st.barber st)
  by_customer :
      (st : State) (i : ℕ)
      → i < num_customers
      → Reachable chairs num_customers st
      → Reachable chairs num_customers (customer_step i (st.customer i) st)
