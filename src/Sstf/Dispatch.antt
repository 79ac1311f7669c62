-- ===== src/Sstf/Dispatch.antt =====
-- `sstf_dispatch`: which request it takes, and what it leaves.
use mathlib.Core.Path.{subst, subst₂}
use mathlib.Core.List.{Perm, reverse-reverse, perm_middle}
use cs.Common.{
  ◌≤◌, ◌<◌, ◌≡◌, ◌⊎◌, refl, sym, ap, ◌∙◌, inl, inr, true, ℕ, none, some, List, [], ◌∷◌, ◌++◌,
  reverse, arith, ltb, Option-cases, ltb→lt, ltb→le, All, All-append, All-mono, All-zip,
  All-of_forall, All-middle,
}
use cs.Sstf.{Request, SstfData, Direction, next, prev, find_first, find_last, choose, dispatch}
use cs.Sstf.Find.{Split, find_first-some, find_first-none, find_last-some, find_last-none}
use cs.Sstf.Insert.{IsSorted}

-- What the elevator promises for the request that it takes from the sorted queue `q`.
abbrev pub Nearest : Direction → ℕ → List Request → Direction → Request → Type 0
Nearest next sec q d rq =
    ((d ≡ next) × (sec < rq.pos) × All (λ y. sec < y.pos → rq.pos ≤ y.pos) q)
    ⊎ ((d ≡ prev) × All (λ y. y.pos ≤ sec) q × All (λ y. y.pos ≤ rq.pos) q)
Nearest prev sec q d rq =
    ((d ≡ prev) × (rq.pos < sec) × All (λ y. y.pos < sec → y.pos ≤ rq.pos) q)
    ⊎ ((d ≡ next) × All (λ y. sec ≤ y.pos) q × All (λ y. rq.pos ≤ y.pos) q)

-- In a sorted queue, what precedes a request is not above it, and what follows is not below it.
IsSorted-around :
    (front : List Request) (rq : Request) (back : List Request)
    → IsSorted (front ++ rq ∷ back)
    → All (λ y. y.pos ≤ rq.pos) front × All (λ y. rq.pos ≤ y.pos) back
IsSorted-around [] rq back h = (tt, h.0)
IsSorted-around (x ∷ xs) rq back h =
    let (below, above) = IsSorted-around xs rq back h.1 in
    ((All-middle _ xs rq back h.0, below), above)

-- A property of the whole queue from one of each part around a request.
Split-All :
    (F B P : Request → Type 0) {q : List Request} {rq : Request} {rest : List Request}
    (s : Split q rq rest)
    → IsSorted q
    → All F s.front
    → All B s.back
    → ((y : Request) → y.pos ≤ rq.pos → F y → P y)
    → P rq
    → ((y : Request) → rq.pos ≤ y.pos → B y → P y)
    → All P q
Split-All F B P {rq} s sorted f b before self behind =
    let (below, above) = IsSorted-around s.front rq s.back (subst IsSorted s.whole sorted) in
    subst (All P) (sym s.whole) (
      All-append P s.front (rq ∷ s.back) (All-zip _ F P before s.front below f)
        (self, All-zip _ B P behind s.back above b))

-- What holds of each outcome of `choose`.
abbrev Chosen : Direction → ℕ → List Request → Direction × Request × List Request → Type 0
Chosen dir sec q (d, rq, rest) = Split q rq rest × (IsSorted q → Nearest dir sec q d rq)

choose-some :
    (dir : Direction) (sec : ℕ) (q : List Request) {c : Direction × Request × List Request}
    → choose dir sec q ≡ some c
    → Chosen dir sec q c
unfolding choose
choose-some next sec q {c} e = elim (Option-cases (find_first (λ x. ltb sec x.pos) q)) [
  | inl nothing ↦ elim (Option-cases (find_last (λ _. true) q)) [
    | inl empty ↦ absurd (ground arith)
    | inr ((y, ys), f) ↦
        let (s, passed, hit) = find_last-some (λ _. true) q f in
        let low = find_first-none (λ x. ltb sec x.pos) q nothing in
        let c_eq : (prev, y, ys) ≡ c = ground arith in
        subst (Chosen next sec q) c_eq (
          s,
          λ sorted. inr (
            refl,
            All-mono _ _ (λ x no. ltb→le _ _ no) q low,
            Split-All (λ _. Unit {0}) _ _ s sorted (All-of_forall _ (λ _. tt) s.front) passed
                (λ x le _. le) (omega arith) (λ x _ no. cc),
          ),
        )
  ]
  | inr ((y, ys), f) ↦
      let (s, passed, hit) = find_first-some (λ x. ltb sec x.pos) q f in
      let c_eq : (next, y, ys) ≡ c = ground arith in
      subst (Chosen next sec q) c_eq (
        s,
        λ sorted. inl (
          refl,
          ltb→lt _ _ hit,
          Split-All _ (λ _. Unit {0}) _ s sorted passed (All-of_forall _ (λ _. tt) s.back)
              (λ x _ no above. absurd (ground arith)) (λ _. omega arith) (λ x le _ _. le),
        ),
      )
]
choose-some prev sec q {c} e = elim (Option-cases (find_last (λ x. ltb x.pos sec) q)) [
  | inl nothing ↦ elim (Option-cases (find_first (λ _. true) q)) [
    | inl empty ↦ absurd (ground arith)
    | inr ((y, ys), f) ↦
        let (s, passed, hit) = find_first-some (λ _. true) q f in
        let high = find_last-none (λ x. ltb x.pos sec) q nothing in
        let c_eq : (next, y, ys) ≡ c = ground arith in
        subst (Chosen prev sec q) c_eq (
          s,
          λ sorted. inr (
            refl,
            All-mono _ _ (λ x no. ltb→le _ _ no) q high,
            Split-All _ (λ _. Unit {0}) _ s sorted passed (All-of_forall _ (λ _. tt) s.back)
                (λ x _ no. cc) (omega arith) (λ x le _. le),
          ),
        )
  ]
  | inr ((y, ys), f) ↦
      let (s, passed, hit) = find_last-some (λ x. ltb x.pos sec) q f in
      let c_eq : (prev, y, ys) ≡ c = ground arith in
      subst (Chosen prev sec q) c_eq (
        s,
        λ sorted. inl (
          refl,
          ltb→lt _ _ hit,
          Split-All (λ _. Unit {0}) _ _ s sorted (All-of_forall _ (λ _. tt) s.front) passed
              (λ x le _ _. le) (λ _. omega arith) (λ x _ no below. absurd (ground arith)),
        ),
      )
]

find_first-true : (q : List Request) → find_first (λ _. true) q ≡ none → q ≡ []
unfolding find_first
find_first-true [] e = refl
find_first-true (x ∷ xs) e = cc

find_last-true : (q : List Request) → find_last (λ _. true) q ≡ none → q ≡ []
unfolding find_last
find_last-true q e =
    sym (reverse-reverse q) ∙ ap reverse (find_first-true (reverse q) (ground arith))

choose-none : (dir : Direction) (sec : ℕ) (q : List Request) → choose dir sec q ≡ none → q ≡ []
unfolding choose
choose-none next sec q e = find_last-true q (ground arith)
choose-none prev sec q e = find_first-true q (ground arith)

-- On a queue in ascending order, `sstf_dispatch` does nothing if the queue is empty. Otherwise it
-- takes one request out of the queue, leaves all others, makes its sector the last sector, and
-- the request is the nearest one ahead in the current direction, or, if none lies ahead, the
-- direction turns and the request is the last one in the old direction.
pub dispatch_lem :
    (nd : SstfData)
    → IsSorted nd.queue
    → ((nd.queue ≡ []) × (dispatch nd ≡ (nd, none)))
      ⊎ ((rq : Request) × (d : Direction) × (rest : List Request) × (dispatch nd
            ≡ (record { direction = d; prevsec = rq.pos; queue = rest }, some rq))
          × Perm nd.queue (rq ∷ rest)
          × Nearest nd.direction nd.prevsec nd.queue d rq)
unfolding dispatch
dispatch_lem nd sorted = elim (Option-cases (choose nd.direction nd.prevsec nd.queue)) [
  | inl nothing ↦ inl (choose-none nd.direction nd.prevsec nd.queue nothing, rw (nothing, dispatch))
  | inr ((d, rq, rest), e) ↦
      let (s, near) = choose-some nd.direction nd.prevsec nd.queue e in
      inr (
        rq,
        d,
        rest,
        rw (e, dispatch),
        subst₂ (λ whole others. Perm whole (rq ∷ others)) (sym s.whole) (sym s.others)
            (perm_middle s.front s.back),
        near sorted,
      )
]
