-- ===== src/Slob/Heap/Listed.antt =====
-- The lists of partially free pages, through the changes of a page's flag.
use mathlib.Core.Path.{subst}
use cs.Common.{
  refl, sym, if◌then◌else◌, ℕ, ◌≡◌, ◌⊎◌, inl, inr, ap, ◌∙◌, true, false, List, [], ◌∷◌, All,
  All-mono, All-zip, arith, ◌==◌, Bool-cases,
}
use cs.Slob.Allocator.{SlobPage, State, is_slob_page, slob_page_free, without}
use cs.Slob.Heap.{AreDistinct, IsListed}
use cs.Slob.Heap.Frame.{eq_of_test, at_page}

-- A property of the pages on a list holds of those that `list_del` leaves.
All-without : (P : ℕ → Type 0) (sp : ℕ) (xs : List ℕ) → All P xs → All P (without sp xs)
unfolding without
All-without P sp [] h = tt
All-without P sp (x ∷ xs) h = elim (Bool-cases (x == sp)) [
  | inl here ↦ rw here h.1
  | inr there ↦ rw there (h.0, All-without P sp xs h.1)
]

AreDistinct-without : (sp : ℕ) (xs : List ℕ) → AreDistinct xs → AreDistinct (without sp xs)
unfolding without
AreDistinct-without sp [] d = tt
AreDistinct-without sp (x ∷ xs) d = elim (Bool-cases (x == sp)) [
  | inl here ↦ rw here d.1
  | inr there ↦ rw there (All-without _ sp xs d.0, AreDistinct-without sp xs d.1)
]

-- `list_del` takes a page off a list without repetition.
away-without :
    (sp : ℕ) (xs : List ℕ) → AreDistinct xs → All (λ y. (y == sp) ≡ false) (without sp xs)
unfolding without
away-without sp [] d = tt
away-without sp (x ∷ xs) d = elim (Bool-cases (x == sp)) [
  | inl here ↦ rw here (All-mono _ _ (λ y ne. ground arith) xs d.0)
  | inr there ↦ rw there (there, away-without sp xs d.1)
]

not_partly :
    (sp k : ℕ) (st : State)
    → (is_slob_page st sp ≡ false) ⊎ (slob_page_free st sp ≡ false)
    → (is_slob_page st k ≡ true) × (slob_page_free st k ≡ true)
    → (k == sp) ≡ false
not_partly sp k st off h = elim (Bool-cases (k == sp)) [
  | inl e ↦
      let at : st.page sp ≡ st.page k = ap st.page (eq_of_test k sp e) in
      absurd (elim off [
        | inl slab ↦ cc (slab, h.0, ap (λ (q : SlobPage). q.slab) at)
        | inr flag ↦ cc (flag, h.1, ap (λ (q : SlobPage). q.slob_free) at)
      ])
  | inr ne ↦ ne
]

module _ (sp : ℕ) (st st' : State)
    (others : (k : ℕ) → (k == sp) ≡ false → st'.page k ≡ st.page k) where
  still_partly :
      (k : ℕ)
      → (k == sp) ≡ false
      → (is_slob_page st k ≡ true) × (slob_page_free st k ≡ true)
      → (is_slob_page st' k ≡ true) × (slob_page_free st' k ≡ true)
  still_partly k ne (slab, flag) = (
    ap (λ (q : SlobPage). q.slab) (others k ne) ∙ slab,
    ap (λ (q : SlobPage). q.slob_free) (others k ne) ∙ flag,
  )

  away_partly :
      (pages : List ℕ) → All (λ k. (k == sp) ≡ false) pages → IsListed st pages → IsListed st' pages
  away_partly pages away l = record {
    partly = All-zip _ _ _ still_partly pages away l.partly;
    distinct = l.distinct;
  }

  -- The page stays partially free.
  pub IsListed-keep :
      (pages : List ℕ)
      → is_slob_page st' sp ≡ true
      → slob_page_free st' sp ≡ true
      → IsListed st pages
      → IsListed st' pages
  IsListed-keep pages slab flag l = record {
    partly =
        All-mono _ _
          (λ k h.
            at_page (λ k. (is_slob_page st' k ≡ true) × (slob_page_free st' k ≡ true)) sp k
              (slab, flag) (λ ne. still_partly k ne h))
          pages l.partly;
    distinct = l.distinct;
  }

  -- The page leaves the list.
  pub IsListed-drop : (pages : List ℕ) → IsListed st pages → IsListed st' (without sp pages)
  IsListed-drop pages l =
      away_partly (without sp pages) (away-without sp pages l.distinct) (record {
        partly = All-without _ sp pages l.partly;
        distinct = AreDistinct-without sp pages l.distinct;
      })

  -- A page that was not partially free is on no list; the lists without it stay.
  pub IsListed-stay :
      (pages : List ℕ)
      → (is_slob_page st sp ≡ false) ⊎ (slob_page_free st sp ≡ false)
      → IsListed st pages
      → IsListed st' pages × All (λ k. (k == sp) ≡ false) pages
  IsListed-stay pages off l =
      let away = All-mono _ _ (λ k h. not_partly sp k st off h) pages l.partly in
      (away_partly pages away l, away)

  -- It goes to the front of a list.
  pub IsListed-add :
      (pages : List ℕ)
      → (is_slob_page st sp ≡ false) ⊎ (slob_page_free st sp ≡ false)
      → is_slob_page st' sp ≡ true
      → slob_page_free st' sp ≡ true
      → IsListed st pages
      → IsListed st' (sp ∷ pages)
  IsListed-add pages off slab flag l =
      let (stay, away) = IsListed-stay pages off l in
      record { partly = ((slab, flag), stay.partly); distinct = (away, stay.distinct) }

  -- The lists after the page has gone to the front of the list `l`.
  pub IsListed-put :
      (l : ℕ)
      → ((i : ℕ) → st'.lists i ≡ (if i == l then sp ∷ st.lists l else st.lists i))
      → (is_slob_page st sp ≡ false) ⊎ (slob_page_free st sp ≡ false)
      → is_slob_page st' sp ≡ true
      → slob_page_free st' sp ≡ true
      → ((i : ℕ) → IsListed st (st.lists i))
      → (i : ℕ) → IsListed st' (st'.lists i)
  IsListed-put l put off slab flag h i = elim (Bool-cases (i == l)) [
    | inl here ↦
        subst (IsListed st') (sym (put i ∙ rw here refl))
          (IsListed-add (st.lists l) off slab flag (h l))
    | inr there ↦
        subst (IsListed st') (sym (put i ∙ rw there refl)) (IsListed-stay (st.lists i) off (h i)).0
  ]
