-- ===== src/Buffer/Invariant.antt =====
-- What holds of the semaphores and the buffer in every interleaving,
-- concur/concurrent1/concurrent1.c.
use mathlib.Core.Path.{subst}
use cs.Common.{
  ℕ, refl, ap, ◌+◌, ◌%◌, ◌≤◌, ◌<◌, ◌≡◌, true, false, arith, ◌==◌, Bool-cases, inl, inr, ◌⊎◌, update,
}
use cs.Buffer.{
  Pro, Con, loop, wait, scan, put_a, put_b, zero_a, zero_b, post, done, State, init, produce,
  consume, Reachable, start, by_producer, by_consumer,
}
use cs.Buffer.Slots.{full, full-fill, full-empty, some_empty, some_full}

-- The producer has taken a unit of `sem_p` and filled no slot yet; or it has filled one and not
-- posted `sem_c` yet.
abbrev pub has_space : Pro → ℕ
has_space loop = 0
has_space wait = 0
has_space (scan i) = 1
has_space (put_a i) = 1
has_space (put_b i) = 1
has_space post = 0
has_space done = 0

abbrev pub has_made : Pro → ℕ
has_made post = 1
has_made loop = 0
has_made wait = 0
has_made (scan i) = 0
has_made (put_a i) = 0
has_made (put_b i) = 0
has_made done = 0

-- The same for the consumer.
abbrev pub has_item : Con → ℕ
has_item loop = 0
has_item wait = 0
has_item (scan i) = 1
has_item (zero_a i) = 1
has_item (zero_b i) = 1
has_item post = 0
has_item done = 0

abbrev pub has_freed : Con → ℕ
has_freed post = 1
has_freed loop = 0
has_freed wait = 0
has_freed (scan i) = 0
has_freed (zero_a i) = 0
has_freed (zero_b i) = 0
has_freed done = 0

-- What each thread may rely on: a scan has a slot ahead, and the slot chosen stays as it was found.
abbrev pub ProClaim : Pro → (ℕ → ℕ) → Type 0
ProClaim loop b = Unit
ProClaim wait b = Unit
ProClaim (scan i) b = (j : ℕ) × (i ≤ j) × (j < 32) × (b j ≡ 0)
ProClaim (put_a i) b = (i < 32) × (b i ≡ 0)
ProClaim (put_b i) b = (i < 32) × (b i ≡ 0)
ProClaim post b = Unit
ProClaim done b = Unit

abbrev pub ConClaim : Con → (ℕ → ℕ) → Type 0
ConClaim loop b = Unit
ConClaim wait b = Unit
ConClaim (scan i) b = (j : ℕ) × (i ≤ j) × (j < 32) × (0 < b j)
ConClaim (zero_a i) b = (i < 32) × (0 < b i)
ConClaim (zero_b i) b = (i < 32) × (0 < b i)
ConClaim post b = Unit
ConClaim done b = Unit

pub record IsSound (st : State) : Type 0 where
  pub space : st.sem_p + has_space st.pro + full 32 st.b + has_freed st.con ≡ 32
  pub items : st.sem_c + has_item st.con + has_made st.pro ≡ full 32 st.b
  pub pro_claim : ProClaim st.pro st.b
  pub con_claim : ConClaim st.con st.b

-- The consumer's emptying of a slot spares what the producer relies on, and the other way round.
ProClaim-empty : (p : Pro) (b : ℕ → ℕ) (k : ℕ) → ProClaim p b → ProClaim p (update b k 0)
ProClaim-empty (scan i) b k (j, le, lt, e) = (j, le, lt, ground arith)
ProClaim-empty (put_a i) b k (lt, e) = (lt, ground arith)
ProClaim-empty (put_b i) b k (lt, e) = (lt, ground arith)
ProClaim-empty loop b k c = tt
ProClaim-empty wait b k c = tt
ProClaim-empty post b k c = tt
ProClaim-empty done b k c = tt

ConClaim-fill : (c : Con) (b : ℕ → ℕ) (k v : ℕ) → 0 < v → ConClaim c b → ConClaim c (update b k v)
ConClaim-fill (scan i) b k v pos (j, le, lt, e) = (j, le, lt, ground arith)
ConClaim-fill (zero_a i) b k v pos (lt, e) = (lt, ground arith)
ConClaim-fill (zero_b i) b k v pos (lt, e) = (lt, ground arith)
ConClaim-fill loop b k v pos c = tt
ConClaim-fill wait b k v pos c = tt
ConClaim-fill post b k v pos c = tt
ConClaim-fill done b k v pos c = tt

ahead_of_full : (b : ℕ → ℕ) (i j : ℕ) → i ≤ j → b j ≡ 0 → (b i == 0) ≡ false → i + 1 ≤ j
ahead_of_full b i j le e taken = elim (Bool-cases (i == j)) [
  | inl same ↦ let at : i ≡ j = ground arith in ground (arith, ap b at)
  | inr other ↦ ground arith
]

ahead_of_empty : (b : ℕ → ℕ) (i j : ℕ) → i ≤ j → 0 < b j → (b i == 0) ≡ true → i + 1 ≤ j
ahead_of_empty b i j le e empty = elim (Bool-cases (i == j)) [
  | inl same ↦ let at : i ≡ j = ground arith in ground (arith, ap b at)
  | inr other ↦ ground arith
]

produce-IsSound :
    (p : Pro) (r : ℕ) (st : State)
    → IsSound (record st { pro = p })
    → IsSound (produce p r (record st { pro = p }))
unfolding produce
produce-IsSound loop r st s = elim (Bool-cases (st.pro_left == 0)) [
  | inl none_left ↦
      rw none_left
        (record { space = s.space; items = s.items; pro_claim = tt; con_claim = s.con_claim })
  | inr some_left ↦
      rw some_left
        (record { space = s.space; items = s.items; pro_claim = tt; con_claim = s.con_claim })
]
produce-IsSound wait r st s = elim (Bool-cases (st.sem_p == 0)) [
  | inl zero_now ↦ rw zero_now s
  | inr some_now ↦
      let pos : 0 < st.sem_p = ground arith in
      let (j, lt, e) = some_empty 32 st.b (omega (arith, s.space, pos)) in
      rw some_now (record {
        space = omega (arith, s.space, pos);
        items = s.items;
        pro_claim = (j, omega arith, lt, e);
        con_claim = s.con_claim;
      })
]
produce-IsSound (scan i) r st s =
    let (j, le, lt, e) = s.pro_claim in
    let more : (i == 32) ≡ false = ground (arith, le, lt) in
    elim (Bool-cases (st.b i == 0)) [
      | inl empty ↦
          rw (more, empty)
            (record {
              space = s.space;
              items = s.items;
              pro_claim = (omega (arith, le, lt), ground arith);
              con_claim = s.con_claim;
            })
      | inr taken ↦
          let later : i + 1 ≤ j = ahead_of_full st.b i j le e taken in
          rw (more, taken)
            (record {
              space = s.space;
              items = s.items;
              pro_claim = (j, later, lt, e);
              con_claim = s.con_claim;
            })
    ]
produce-IsSound (put_a i) r st s = record {
  space = s.space;
  items = s.items;
  pro_claim = s.pro_claim;
  con_claim = s.con_claim;
}
produce-IsSound (put_b i) r st s =
    let (lt, e) = s.pro_claim in
    let pos : 0 < 2 + r % 8 = omega arith in
    let more = full-fill 32 st.b i (2 + r % 8) lt e pos in
    record {
      space = omega (arith, s.space, more);
      items = omega (arith, s.items, more);
      pro_claim = tt;
      con_claim = ConClaim-fill st.con st.b i (2 + r % 8) pos s.con_claim;
    }
produce-IsSound post r st s = record {
  space = s.space;
  items = omega (arith, s.items);
  pro_claim = tt;
  con_claim = s.con_claim;
}
produce-IsSound done r st s = s

consume-IsSound :
    (c : Con) (st : State)
    → IsSound (record st { con = c })
    → IsSound (consume c (record st { con = c }))
unfolding consume
consume-IsSound loop st s = elim (Bool-cases (st.con_left == 0)) [
  | inl none_left ↦
      rw none_left
        (record { space = s.space; items = s.items; pro_claim = s.pro_claim; con_claim = tt })
  | inr some_left ↦
      rw some_left
        (record { space = s.space; items = s.items; pro_claim = s.pro_claim; con_claim = tt })
]
consume-IsSound wait st s = elim (Bool-cases (st.sem_c == 0)) [
  | inl zero_now ↦ rw zero_now s
  | inr some_now ↦
      let pos : 0 < st.sem_c = ground arith in
      let (j, lt, e) = some_full 32 st.b (omega (arith, s.items, pos)) in
      rw some_now (record {
        space = s.space;
        items = omega (arith, s.items, pos);
        pro_claim = s.pro_claim;
        con_claim = (j, omega arith, lt, e);
      })
]
consume-IsSound (scan i) st s =
    let (j, le, lt, e) = s.con_claim in
    let more : (i == 32) ≡ false = ground (arith, le, lt) in
    elim (Bool-cases (st.b i == 0)) [
      | inl empty ↦
          let later : i + 1 ≤ j = ahead_of_empty st.b i j le e empty in
          rw (more, empty)
            (record {
              space = s.space;
              items = s.items;
              pro_claim = s.pro_claim;
              con_claim = (j, later, lt, e);
            })
      | inr taken ↦
          rw (more, taken)
            (record {
              space = s.space;
              items = s.items;
              pro_claim = s.pro_claim;
              con_claim = (omega (arith, le, lt), ground arith);
            })
    ]
consume-IsSound (zero_a i) st s = record {
  space = s.space;
  items = s.items;
  pro_claim = s.pro_claim;
  con_claim = s.con_claim;
}
consume-IsSound (zero_b i) st s =
    let (lt, pos) = s.con_claim in
    let less = full-empty 32 st.b i lt pos in
    record {
      space = omega (arith, s.space, less);
      items = omega (arith, s.items, less);
      pro_claim = ProClaim-empty st.pro st.b i s.pro_claim;
      con_claim = tt;
    }
consume-IsSound post st s = record {
  space = omega (arith, s.space);
  items = s.items;
  pro_claim = s.pro_claim;
  con_claim = tt;
}
consume-IsSound done st s = s

-- In every interleaving of the producer and the consumer, `sem_p` and the slots claimed, filled or
-- just emptied are 32 together, `sem_c` and the items claimed or just made are the full slots; a
-- scan of the producer has an empty slot ahead and one of the consumer a full slot, and the slot
-- that a thread has chosen is still as it was found.
pub Reachable-IsSound : {no_p no_c : ℕ} (st : State) → Reachable no_p no_c st → IsSound st
unfolding init full
Reachable-IsSound _ start = record { space = refl; items = refl; pro_claim = tt; con_claim = tt }
Reachable-IsSound _ (by_producer st r h) = produce-IsSound st.pro r st (Reachable-IsSound st h)
Reachable-IsSound _ (by_consumer st h) = consume-IsSound st.con st (Reachable-IsSound st h)

-- In every interleaving, a thread that scans the buffer stands at one of its 32 slots, never behind
-- the last one. The two semaphores are 32 together at most, whether a thread scans or not.
pub scans_succeed :
    {no_p no_c : ℕ} (st : State)
    → Reachable no_p no_c st
    → ((i : ℕ) → (st.pro ≡ Pro.scan i) ⊎ (st.con ≡ Con.scan i) → i < 32)
      × (st.sem_p + st.sem_c ≤ 32)
scans_succeed st h =
    let s = Reachable-IsSound st h in
    let looks : (i : ℕ) → (st.pro ≡ Pro.scan i) ⊎ (st.con ≡ Con.scan i) → i < 32 = λ i at. elim at [
      | inl e ↦
          let (j, le, lt, _) = subst (λ p. ProClaim p st.b) e s.pro_claim in omega (arith, le, lt)
      | inr e ↦
          let (j, le, lt, _) = subst (λ c. ConClaim c st.b) e s.con_claim in omega (arith, le, lt)
    ] in
    (looks, omega (arith, s.space, s.items))
