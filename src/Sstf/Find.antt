-- ===== src/Sstf/Find.antt =====
-- The walks of `sstf_dispatch` over the queue: which request they stop at, and what passes.
use mathlib.Core.List.{reverse-reverse, reverse-append}
use cs.Common.{
  ◌≡◌, sym, ap, ◌∙◌, inl, inr, Bool, true, false, none, some, List, [], ◌∷◌, ◌++◌, reverse,
  append_assoc, arith, Bool-cases, Option-cases, All, All-reverse, reverse-cons,
}
use cs.Sstf.{Request, find_first, find_last}

-- `rq` taken out of `q` leaves `rest`.
pub record Split (q : List Request) (rq : Request) (rest : List Request) : Type 0 where
  pub front : List Request
  pub back : List Request
  pub whole : q ≡ front ++ rq ∷ back
  pub others : rest ≡ front ++ back

reverse-middle :
    (xs : List Request) (y : Request) (ys : List Request)
    → reverse (xs ++ y ∷ ys) ≡ reverse ys ++ y ∷ reverse xs
reverse-middle xs y ys =
    reverse-append xs (y ∷ ys)
    ∙ ap (λ l. l ++ reverse xs) (reverse-cons y ys)
    ∙ append_assoc (reverse ys) (y ∷ []) (reverse xs)

abbrev pub Fails : (Request → Bool) → List Request → Type 0
Fails p = All (λ y. p y ≡ false)

module _ (p : Request → Bool) where
  pub find_first-some :
      (q : List Request) {rq : Request} {rest : List Request}
      → find_first p q ≡ some (rq, rest)
      → (s : Split q rq rest) × Fails p s.front × (p rq ≡ true)
  unfolding find_first
  find_first-some [] e = cc
  find_first-some (x ∷ xs) e = elim (Bool-cases (p x)) [
    | inl hit ↦ (
      record { front = []; back = xs; whole = ground arith; others = ground arith },
      tt,
      ground arith,
    )
    | inr miss ↦ elim (Option-cases (find_first p xs)) [
      | inl nothing ↦ absurd (ground arith)
      | inr ((y, ys), f) ↦
          let (s, passed, hit) = find_first-some xs f in
          (
            record {
              front = x ∷ s.front;
              back = s.back;
              whole = ground (arith, s.whole);
              others = ground (arith, s.others);
            },
            (miss, passed),
            ground arith,
          )
    ]
  ]

  pub find_first-none : (q : List Request) → find_first p q ≡ none → Fails p q
  unfolding find_first
  find_first-none [] e = tt
  find_first-none (x ∷ xs) e = ground (arith, find_first-none xs)

  pub find_last-some :
      (q : List Request) {rq : Request} {rest : List Request}
      → find_last p q ≡ some (rq, rest)
      → (s : Split q rq rest) × Fails p s.back × (p rq ≡ true)
  unfolding find_last
  find_last-some q {rq} {rest} e = elim (Option-cases (find_first p (reverse q))) [
    | inl nothing ↦ absurd (ground arith)
    | inr ((y, ys), f) ↦
        let (s, passed, hit) = find_first-some (reverse q) f in
        let y_eq : y ≡ rq = ground arith in
        let rest_eq : reverse ys ≡ rest = ground arith in
        (
          record {
            front = reverse s.back;
            back = reverse s.front;
            whole =
                rw (← y_eq)
                  (sym (reverse-reverse q) ∙ ap reverse s.whole ∙ reverse-middle s.front y s.back);
            others = sym rest_eq ∙ ap reverse s.others ∙ reverse-append s.front s.back;
          },
          All-reverse _ s.front passed,
          rw (← y_eq) hit,
        )
  ]

  pub find_last-none : (q : List Request) → find_last p q ≡ none → Fails p q
  unfolding find_last
  find_last-none q e =
      rw (reverse-reverse q) at
        (All-reverse _ (reverse q) (find_first-none (reverse q) (ground arith)))
