-- ===== src/SharedResource/Crowd.antt =====
-- All customers use the resource at once, concur/concurrent5/concurrent5A.c.
use mathlib.Core.Path.{subst}
use cs.Common.{
  ℤ, negsuc, dec, sym, ◌+◌, ltb, pos, positive, ℕ, zero, suc, ◌≤◌, ◌<◌, ◌≡◌, refl, ◌∙◌, arith,
  if◌then◌else◌,
}
use cs.SharedResource.{
  arriving, taking, using_it, storing_less, State, init, customer_step, Reachable, start,
  by_customer,
}

-- `resource_count` and `u` users are three together.
abbrev pub IsThree : ℤ → ℕ → Type 0
IsThree (pos c) u = c + u ≡ 3
IsThree (negsuc c) u = u ≡ c + 4

IsThree-dec : (c : ℤ) (u : ℕ) → IsThree c u → IsThree (dec c) (suc u)
unfolding dec
IsThree-dec (pos zero) u h = omega (arith, h)
IsThree-dec (pos (suc c)) u h = omega (arith, h)
IsThree-dec (negsuc c) u h = omega (arith, h)

-- The first `k` customers have passed the test; then the first `j` of them have taken their share.
tested : ℕ → State
tested zero = init
tested (suc k) = customer_step k arriving (tested k)

taken : (n j : ℕ) → State
taken n zero = tested n
taken n (suc j) =
    customer_step j (storing_less (taken n j).resource_count) (customer_step j taking (taken n j))

tested_lem :
    (n k : ℕ)
    → k ≤ n
    → Reachable n init (tested k)
      × ((tested k).resource_count ≡ pos 3)
      × ((i : ℕ) → (tested k).customer i ≡ (if ltb i k then taking else arriving))
unfolding tested init customer_step positive
tested_lem n zero le = (start, refl, λ i. ground arith)
tested_lem n (suc k) le =
    let (r, count, at) = tested_lem n k (omega arith) in
    let here : (tested k).customer k ≡ arriving = at k ∙ ground arith in
    (
      subst (λ q. Reachable n init (customer_step k q (tested k))) here
          (by_customer (tested k) k (omega arith) r),
      count,
      λ i. rw count (ground (arith, at i)),
    )

taken_lem :
    (n j : ℕ)
    → j ≤ n
    → Reachable n init (taken n j)
      × IsThree (taken n j).resource_count j
      × ((i : ℕ) → i < n → (taken n j).customer i ≡ (if ltb i j then using_it else taking))
unfolding taken customer_step
taken_lem n zero le =
    let (r, count, at) = tested_lem n n (omega arith) in
    (r, subst (λ c. IsThree c 0) (sym count) refl, λ i lt. at i ∙ ground arith)
taken_lem n (suc j) le =
    let (r, three, at) = taken_lem n j (omega arith) in
    let st = taken n j in
    let here : st.customer j ≡ taking = at j (omega arith) ∙ ground arith in
    let seen = storing_less st.resource_count in
    let read : Reachable n init (customer_step j taking st) =
      subst (λ q. Reachable n init (customer_step j q st)) here
        (by_customer st j (omega arith) r) in
    let reads : (customer_step j taking st).customer j ≡ seen = ground arith in
    (
      subst (λ q. Reachable n init (customer_step j q (customer_step j taking st))) reads
          (by_customer (customer_step j taking st) j (omega arith) read),
      IsThree-dec st.resource_count j three,
      λ i lt. ground (arith, at i lt),
    )

-- However many customers there are, there is a run after which all of them use the resource at once,
-- and `resource_count` and their number are three together: it is negative for more than three.
pub customers_crowd :
    (n : ℕ)
    → (st : State) × Reachable n init st
      × ((i : ℕ) → i < n → st.customer i ≡ using_it)
      × IsThree st.resource_count n
customers_crowd n =
    let (r, three, at) = taken_lem n n (omega arith) in
    (taken n n, r, λ i lt. at i lt ∙ ground arith, three)
