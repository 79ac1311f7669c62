-- ===== src/Philosophers/Progress.antt =====
-- Philosophers that wait for a fork, concur/concurrent2/concurrent2.c.
use cs.Common.{ℕ, refl, sym, ap, ◌∙◌, ◌<◌, ◌≡◌, ◌⊎◌, inl, inr, true, false, arith, ◌==◌, Bool-cases}
use cs.Philosophers.{Pc, enter, take_left, take_right, State, Reachable, waits, is_blocked}
use cs.Philosophers.Count.{count-some}
use cs.Philosophers.Invariant.{has_left, has_right, IsFair, Reachable-IsFair}

-- Who holds a right unit waits for nothing.
right-free : (st : State) (j : ℕ) (p : Pc) → 0 < has_right p → waits p st j ≡ false
unfolding waits
right-free st j enter h = absurd (omega arith)
right-free st j take_left h = absurd (omega arith)
right-free st j take_right h = absurd (omega arith)
right-free st j _ h = refl

-- Who holds a left unit waits at most for a right one.
left-free :
    (st : State) (j : ℕ) (p : Pc) → 0 < has_left p → (waits p st j ≡ false) ⊎ (st.sem_right ≡ 0)
unfolding waits
left-free st j enter h = absurd (omega arith)
left-free st j take_left h = absurd (omega arith)
left-free st j take_right h = elim (Bool-cases (st.sem_right == 0)) [
  | inl none_right ↦ inr (ground arith)
  | inr some_right ↦ inl some_right
]
left-free st j _ h = inl refl

abbrev SomeoneRuns : State → Type 0
SomeoneRuns st = (j : ℕ) × (j < 5) × (is_blocked st j ≡ false)

right_moves : (st : State) → IsFair st → st.sem_right ≡ 0 → SomeoneRuns st
right_moves st f none_left =
    let (j, lt, holds) = count-some 5 has_right st.pc (omega (arith, f.right)) in
    (j, lt, right-free st j (st.pc j) holds)

left_moves : (st : State) → IsFair st → st.sem_left ≡ 0 → SomeoneRuns st
left_moves st f none_left =
    let (j, lt, holds) = count-some 5 has_left st.pc (omega (arith, f.left)) in
    elim (left-free st j (st.pc j) holds) [
      | inl free ↦ (j, lt, free)
      | inr none_right ↦ right_moves st f none_right
    ]

no_left : (st : State) (i : ℕ) → st.pc i ≡ take_left → is_blocked st i ≡ true → st.sem_left ≡ 0
unfolding waits
no_left st i e here =
    let zero_now : (st.sem_left == 0) ≡ true = sym (ap (λ (p : Pc). waits p st i) e) ∙ here in
    ground arith

no_right : (st : State) (i : ℕ) → st.pc i ≡ take_right → is_blocked st i ≡ true → st.sem_right ≡ 0
unfolding waits
no_right st i e here =
    let zero_now : (st.sem_right == 0) ≡ true = sym (ap (λ (p : Pc). waits p st i) e) ∙ here in
    ground arith

-- In every interleaving: while a philosopher waits for a left or a right fork, some philosopher
-- does not wait.
pub forks_moves :
    (st : State) (i : ℕ)
    → Reachable st
    → (st.pc i ≡ take_left) ⊎ (st.pc i ≡ take_right)
    → is_blocked st i ≡ true
    → (j : ℕ) × (j < 5) × (is_blocked st j ≡ false)
unfolding waits
forks_moves st i r (inl e) here = left_moves st (Reachable-IsFair st r) (no_left st i e here)
forks_moves st i r (inr e) here = right_moves st (Reachable-IsFair st r) (no_right st i e here)
