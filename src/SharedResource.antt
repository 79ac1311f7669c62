-- ===== src/SharedResource.antt =====
-- The resource shared by three, concur/concurrent5/concurrent5A.c: one statement of a thread is a
-- step, but `resource_count--` and `resource_count++`, which no lock protects, are two, the read and
-- the write. `main` creates the customers' threads; one that is not created yet stands at its first
-- statement. Messages, `sleep` and `rand` are left out.
pub mod Crowd
pub mod Stuck
mod Tests
use cs.Common.{
  ℤ, pos, negsuc, inc, dec, positive, ℕ, ◌<◌, Bool, true, false, ◌==◌, if◌then◌else◌, update,
}

-- Where `handler` stands: before the test, or before the unlock.
pub data HandlerPc : Type 0 where
  testing unlocking : HandlerPc

-- Where a `customer` stands: before the test, `--` and the write of the value that it has read,
-- `++` and the write of the value read, the lock, and at the end.
pub data CustomerPc : Type 0 where
  arriving taking using_it blocked gone : CustomerPc
  storing_less storing_more : (seen : ℤ) → CustomerPc

-- The shared variables, and the threads; the mutex is true when it is locked.
pub record State : Type 0 where
  pub resource_count : ℤ
  pub resource_mutex : Bool
  pub handler : HandlerPc
  pub customer : ℕ → CustomerPc

-- `main`
unfoldable pub init : State
init = record {
  resource_count = pos 3;
  resource_mutex = false;
  handler = testing;
  customer = λ i. arriving;
}

-- `resource_count == 3`
unfoldable pub is_three : ℤ → Bool
is_three (pos n) = n == 3
is_three (negsuc n) = false

-- `handler`
unfoldable pub handler_step : HandlerPc → State → State
unfolding is_three
handler_step testing st = record st {
  handler = if is_three st.resource_count then unlocking else testing;
}
handler_step unlocking st = record st { resource_mutex = false; handler = testing }

abbrev pub goes : State → ℕ → CustomerPc → State
goes st i pc = record st { customer = update st.customer i pc }

-- `customer`; a lock that is taken leaves it where it stands.
unfoldable pub customer_step : (i : ℕ) → CustomerPc → State → State
customer_step i arriving st = goes st i (if positive st.resource_count then taking else blocked)
customer_step i taking st = goes st i (storing_less st.resource_count)
customer_step i (storing_less seen) st = record (goes st i using_it) { resource_count = dec seen }
customer_step i using_it st = goes st i (storing_more st.resource_count)
customer_step i (storing_more seen) st = record (goes st i gone) { resource_count = inc seen }
customer_step i blocked st =
    if st.resource_mutex then st else record (goes st i arriving) { resource_mutex = true }
customer_step i gone st = st

-- The states that the handler and `num_customers` customers can bring about from `from`, in any
-- interleaving.
pub data Reachable (num_customers : ℕ) (from : State) : State → Type 0 where
  start : Reachable num_customers from from
  by_handler :
      (st : State)
      → Reachable num_customers from st
      → Reachable num_customers from (handler_step st.handler st)
  by_customer :
      (st : State) (i : ℕ)
      → i < num_customers
      → Reachable num_customers from st
      → Reachable num_customers from (customer_step i (st.customer i) st)
