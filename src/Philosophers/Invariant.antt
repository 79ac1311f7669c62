-- ===== src/Philosophers/Invariant.antt =====
-- What holds of forks and semaphores in every interleaving, concur/concurrent2/concurrent2.c.
use cs.Common.{
  ℕ, zero, suc, refl, ap, ◌∙◌, ◌+◌, ◌≤◌, ◌<◌, ◌≡◌, inl, inr, false, arith, ltb, ◌==◌, Bool-cases,
  update,
}
use cs.Philosophers.{
  Pc, think, rest, enter, take_left, count_left, take_right, count_right, mark, test, post, clear,
  eat, stop, put_left, uncount_left, put_right, uncount_right, State, init, at, act, step,
  Reachable, start, go,
}
use cs.Philosophers.Count.{count, count-update}

-- Between `sem_wait` and `sem_post`, a philosopher holds a unit of the semaphore.
abbrev pub has_left : Pc → ℕ
has_left count_left = 1
has_left take_right = 1
has_left count_right = 1
has_left mark = 1
has_left (test k) = 1
has_left (post k) = 1
has_left (clear k) = 1
has_left eat = 1
has_left stop = 1
has_left put_left = 1
has_left think = 0
has_left rest = 0
has_left enter = 0
has_left take_left = 0
has_left uncount_left = 0
has_left put_right = 0
has_left uncount_right = 0

abbrev pub has_right : Pc → ℕ
has_right count_right = 1
has_right mark = 1
has_right (test k) = 1
has_right (post k) = 1
has_right (clear k) = 1
has_right eat = 1
has_right stop = 1
has_right put_left = 1
has_right uncount_left = 1
has_right put_right = 1
has_right count_left = 0
has_right take_right = 0
has_right think = 0
has_right rest = 0
has_right enter = 0
has_right take_left = 0
has_right uncount_right = 0

-- The forks that `phi_forks` counts for a philosopher.
abbrev pub counted : Pc → ℕ
counted think = 0
counted rest = 0
counted enter = 0
counted take_left = 0
counted count_left = 0
counted take_right = 1
counted count_right = 1
counted mark = 2
counted (test k) = 2
counted (post k) = 2
counted (clear k) = 2
counted eat = 2
counted stop = 2
counted put_left = 2
counted uncount_left = 2
counted put_right = 1
counted uncount_right = 1

pub record IsFair (st : State) : Type 0 where
  pub left : st.sem_left + count 5 has_left st.pc ≡ 3
  pub right : st.sem_right + count 5 has_right st.pc ≡ 2
  pub forks : (j : ℕ) → st.forks j ≡ counted (st.pc j)

exchange :
    (h : Pc → ℕ) (pc pc' : ℕ → Pc) (i : ℕ) (p p' : Pc) (s s' whole : ℕ)
    → i < 5
    → pc i ≡ p
    → pc' ≡ update pc i p'
    → s' + h p' ≡ s + h p
    → s + count 5 h pc ≡ whole
    → s' + count 5 h pc' ≡ whole
exchange h pc pc' i p p' s s' whole lt stands goes same sum =
    rw goes (omega (arith, count-update 5 h pc i p' lt, ap h stands))

forks-moved :
    (pc pc' : ℕ → Pc) (forks forks' : ℕ → ℕ) (i : ℕ) (p' : Pc)
    → pc' ≡ update pc i p'
    → ((j : ℕ) → forks j ≡ counted (pc j))
    → forks' i ≡ counted p'
    → ((j : ℕ) → (j == i) ≡ false → forks' j ≡ forks j)
    → (j : ℕ) → forks' j ≡ counted (pc' j)
forks-moved pc pc' forks forks' i p' goes old here others j = elim (Bool-cases (j == i)) [
  | inl same ↦ let e : j ≡ i = ground arith in rw (goes, same) (ap forks' e ∙ here)
  | inr other ↦ rw (goes, other) (others j other ∙ old j)
]

-- A move of the philosopher `i` from `p` to `p'` that exchanges what it holds.
moved :
    (st st' : State) (i : ℕ) (p p' : Pc)
    → i < 5
    → IsFair st
    → st.pc i ≡ p
    → st'.pc ≡ update st.pc i p'
    → st'.sem_left + has_left p' ≡ st.sem_left + has_left p
    → st'.sem_right + has_right p' ≡ st.sem_right + has_right p
    → st'.forks i ≡ counted p'
    → ((j : ℕ) → (j == i) ≡ false → st'.forks j ≡ st.forks j)
    → IsFair st'
moved st st' i p p' lt f stands goes left right here others = record {
  left =
      exchange has_left st.pc st'.pc i p p' st.sem_left st'.sem_left 3 lt stands goes left f.left;
  right =
      exchange has_right st.pc st'.pc i p p' st.sem_right st'.sem_right 2 lt stands goes right
        f.right;
  forks = forks-moved st.pc st'.pc st.forks st'.forks i p' goes f.forks here others;
}

module _ (st : State) (i : ℕ) (lt : i < 5) (f : IsFair st) where
  -- A move that leaves the fork semaphores and the counts of forks.
  kept :
      (st' : State) (p p' : Pc)
      → st.pc i ≡ p
      → st'.pc ≡ update st.pc i p'
      → st'.sem_left ≡ st.sem_left
      → st'.sem_right ≡ st.sem_right
      → st'.forks ≡ st.forks
      → has_left p' ≡ has_left p
      → has_right p' ≡ has_right p
      → counted p' ≡ counted p
      → IsFair st'
  kept st' p p' stands goes left right forks l r c =
      moved st st' i p p' lt f stands goes (omega (arith, left, l)) (omega (arith, right, r))
        (rw (forks, c) (f.forks i ∙ ap counted stands)) (λ j ne. rw forks refl)

  act-IsFair : (p : Pc) → st.pc i ≡ p → IsFair (act p st i)
  unfolding act
  act-IsFair think e = kept (act think st i) think rest e refl refl refl refl refl refl refl
  act-IsFair rest e = kept (act rest st i) rest enter e refl refl refl refl refl refl refl
  act-IsFair enter e = elim (Bool-cases (st.sem_phi i == 0)) [
    | inl zero_now ↦ rw zero_now f
    | inr some_now ↦ rw some_now (kept _ enter take_left e refl refl refl refl refl refl refl)
  ]
  act-IsFair take_left e = elim (Bool-cases (st.sem_left == 0)) [
    | inl zero_now ↦ rw zero_now f
    | inr some_now ↦ rw some_now (
        moved st _ i take_left count_left lt f e refl (ground arith) refl (f.forks i ∙ ap counted e)
          (λ j ne. refl))
  ]
  act-IsFair count_left e =
      moved st (act count_left st i) i count_left take_right lt f e refl refl refl
        (ground (arith, f.forks i, e)) (λ j ne. rw ne refl)
  act-IsFair take_right e = elim (Bool-cases (st.sem_right == 0)) [
    | inl zero_now ↦ rw zero_now f
    | inr some_now ↦ rw some_now (
        moved st _ i take_right count_right lt f e refl refl (ground arith)
          (f.forks i ∙ ap counted e) (λ j ne. refl))
  ]
  act-IsFair count_right e =
      moved st (act count_right st i) i count_right mark lt f e refl refl refl
        (ground (arith, f.forks i, e)) (λ j ne. rw ne refl)
  act-IsFair mark e = kept (act mark st i) mark (test 0) e refl refl refl refl refl refl refl
  act-IsFair (test k) e = elim (Bool-cases (st.phi k)) [
    | inl set ↦ elim (Bool-cases (ltb k 4)) [
      | inl more ↦
          rw (set, more)
            (kept (at st i (test (k + 1))) (test k) (test (k + 1)) e refl refl refl refl refl refl
              refl)
      | inr last ↦
          rw (set, last)
            (kept (at st i (post 0)) (test k) (post 0) e refl refl refl refl refl refl refl)
    ]
    | inr unset ↦ rw unset (kept (at st i eat) (test k) eat e refl refl refl refl refl refl refl)
  ]
  act-IsFair (post k) e =
      kept (act (post k) st i) (post k) (clear k) e refl refl refl refl refl refl refl
  act-IsFair (clear k) e =
      let cleared : State = record st { phi = update st.phi k false } in
      elim (Bool-cases (ltb k 4)) [
        | inl more ↦ rw more (
            kept (at cleared i (post (k + 1))) (clear k) (post (k + 1)) e refl refl refl refl refl
              refl refl)
        | inr last ↦
            rw last (kept (at cleared i eat) (clear k) eat e refl refl refl refl refl refl refl)
      ]
  act-IsFair eat e = kept (act eat st i) eat stop e refl refl refl refl refl refl refl
  act-IsFair stop e = kept (act stop st i) stop put_left e refl refl refl refl refl refl refl
  act-IsFair put_left e =
      moved st (act put_left st i) i put_left uncount_left lt f e refl (ground arith) refl
        (f.forks i ∙ ap counted e) (λ j ne. refl)
  act-IsFair uncount_left e =
      moved st (act uncount_left st i) i uncount_left put_right lt f e refl refl refl
        (ground (arith, f.forks i, e)) (λ j ne. rw ne refl)
  act-IsFair put_right e =
      moved st (act put_right st i) i put_right uncount_right lt f e refl refl (ground arith)
        (f.forks i ∙ ap counted e) (λ j ne. refl)
  act-IsFair uncount_right e =
      moved st (act uncount_right st i) i uncount_right think lt f e refl refl refl
        (ground (arith, f.forks i, e)) (λ j ne. rw ne refl)

step-IsFair : (st : State) (i : ℕ) → i < 5 → IsFair st → IsFair (step st i)
unfolding step
step-IsFair st i lt f = act-IsFair st i lt f (st.pc i) refl

-- In every interleaving of the threads, the semaphores and the threads share out three left and
-- two right units, and `phi_forks` is 2 from the second fork until the first is put back, 1 while
-- a philosopher has one fork counted, and 0 otherwise.
pub Reachable-IsFair : (st : State) → Reachable st → IsFair st
unfolding count init
Reachable-IsFair _ start = record { left = refl; right = refl; forks = λ j. refl }
Reachable-IsFair _ (go st i lt r) = step-IsFair st i lt (Reachable-IsFair st r)

-- The philosopher stands at the statement that sets `phi_status` to 2, or at the next one.
abbrev pub eats : Pc → ℕ
eats p = elim p [ eat ↦ 1 | stop ↦ 1 | _ ↦ 0 ]

eats-le : (p : Pc) → eats p ≤ has_right p
eats-le eat = omega arith
eats-le stop = omega arith
eats-le _ = omega arith

eats-counted : (p : Pc) → 0 < eats p → counted p ≡ 2
eats-counted eat h = refl
eats-counted stop h = refl
eats-counted _ h = absurd (omega arith)

count-le :
    (n : ℕ) (f g : Pc → ℕ) (pc : ℕ → Pc) → ((p : Pc) → f p ≤ g p) → count n f pc ≤ count n g pc
unfolding count
count-le zero f g pc h = omega arith
count-le (suc n) f g pc h = omega (arith, h (pc n), count-le n f g pc h)

-- In every interleaving, when a philosopher eats, at most two do, and this one has two forks.
pub eats_two :
    (st : State) (j : ℕ)
    → Reachable st
    → 0 < eats (st.pc j)
    → (count 5 eats st.pc ≤ 2) × (st.forks j ≡ 2)
eats_two st j r e =
    let f = Reachable-IsFair st r in
    (
      omega (arith, f.right, count-le 5 eats has_right st.pc eats-le),
      f.forks j ∙ eats-counted (st.pc j) e,
    )
