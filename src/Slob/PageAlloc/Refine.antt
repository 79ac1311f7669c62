-- ===== src/Slob/PageAlloc/Refine.antt =====
-- The search of a page over its memory, and first fit over the free list that the memory holds.
use cs.Common.{
  ℕ, zero, suc, ◌+◌, ◌<◌, ◌≡◌, refl, inl, inr, true, false, Option, none, some, List, [], ◌∷◌,
  arith, leb, Bool-cases, length,
}
use cs.Slob.Block.{Mem, slob_units, slob_next, slob_last}
use cs.Slob.Block.FreeList.{
  Block, start, FreeList, Outside, Outside-below, slob_last-end, slob_last-inner,
}
use cs.Slob.PageAlloc.{Carved, align_gap, fragment_head, unlink, page_search}
use cs.Slob.PageAlloc.Fit.{keep, fit}
use cs.Slob.PageAlloc.Split.{
  Linked, Linked-frame, Apart, address, cursor, Kept, carve-Kept, carve_lem,
}

-- The outcome of a search, against what first fit says.
abbrev pub Refines :
    Mem
    → (k free : ℕ) → Option Block
    → List Block
    → Option (ℕ × List Block)
    → Option (Option Carved)
    → Type 0
Refines m k free before bs none res = res ≡ some none
Refines m k free before bs (some (x, bs')) res =
    (r : Carved) × (res ≡ some (some r))
    × (r.block ≡ x)
    × FreeList r.mem k bs'
    × Linked r.mem k before r.free (start k bs')
    × Kept before free r.free
    × ((y : ℕ) → Apart y before → Outside y bs → r.mem y ≡ m y)

module _ (m : Mem) (k free units align : ℕ) where
  search-fits :
      (fuel : ℕ) (before : Option Block) (a n : ℕ)
      → slob_units m a ≡ n
      → leb (units + align_gap a align) n ≡ true
      → page_search (suc fuel) m free units align (address before) a
        ≡ some (some (unlink (fragment_head (cursor m before a n) (align_gap a align)) free units))
  unfolding page_search
  search-fits fuel before a n e h = rw (e, h)

  search-last :
      (fuel : ℕ) (before : Option Block) (a n : ℕ)
      → slob_units m a ≡ n
      → leb (units + align_gap a align) n ≡ false
      → slob_last m a ≡ true
      → page_search (suc fuel) m free units align (address before) a ≡ some none
  unfolding page_search
  search-last fuel before a n e h l = rw (e, h, l)

  search-next :
      (fuel : ℕ) (before : Option Block) (a n b : ℕ)
      → slob_units m a ≡ n
      → leb (units + align_gap a align) n ≡ false
      → slob_last m a ≡ false
      → slob_next m a ≡ b
      → page_search (suc fuel) m free units align (address before) a
        ≡ page_search fuel m free units align (address (some (a, n))) b
  unfolding page_search
  search-next fuel before a n b e h l nx = rw (e, h, l, nx)

  fits_Refines :
      (fuel : ℕ) (before : Option Block) (a n : ℕ) (bs : List Block)
      → FreeList m k ((a, n) ∷ bs)
      → Linked m k before free a
      → 0 < units
      → leb (units + align_gap a align) n ≡ true
      → Refines m k free before
          ((a, n) ∷ bs)
          (fit units align ((a, n) ∷ bs))
          (page_search (suc fuel) m free units align (address before) a)
  unfolding fit
  fits_Refines fuel before a n bs f l pos h =
      let d = align_gap a align in
      let (at, holds) = carve_lem m k free before a n bs units d f l pos (ground arith) in
      rw h (
        _,
        search-fits fuel before a n f.0.units h,
        at,
        holds.list,
        holds.linked,
        carve-Kept m free before a n units d,
        λ y apart out. holds.frame y apart out.0,
      )

  -- A block without room stays, and so does the link into it.
  Refines-cons :
      (before : Option Block) (a n : ℕ) (bs : List Block) (o : Option (ℕ × List Block))
      (res : Option (Option Carved))
      → FreeList m k ((a, n) ∷ bs)
      → Linked m k before free a
      → Refines m k free (some (a, n)) bs o res
      → Refines m k free before ((a, n) ∷ bs) (keep (a, n) o) res
  Refines-cons before a n bs none res f l ref = ref
  Refines-cons before a n bs (some (x, bs')) res f l (r, e, at, list, linked, kept, frame) = (
    r,
    e,
    at,
    (linked, list),
    rw kept (Linked-frame m r.mem k free before a l (λ y lt. frame y (inl lt) (below y lt))),
    keeps before,
    λ y apart out. frame y out.0 out.1,
  )
    where
      below : (y : ℕ) → y < a → Outside y bs
      below y lt = Outside-below m k y bs f.1 (omega (arith, f.0.room))

      keeps : (b : Option Block) → Kept b free r.free
      keeps none = tt
      keeps (some _) = kept

  fit-nil : fit units align [] ≡ none
  unfolding fit
  fit-nil = refl

  fit-skip :
      (a n : ℕ) (bs : List Block)
      → leb (units + align_gap a align) n ≡ false
      → fit units align ((a, n) ∷ bs) ≡ keep (a, n) (fit units align bs)
  unfolding fit
  fit-skip a n bs h = rw h

  pub page_search-Refines :
      (fuel : ℕ) (before : Option Block) (a n : ℕ) (bs : List Block)
      → FreeList m k ((a, n) ∷ bs)
      → Linked m k before free a
      → 0 < units
      → length bs < fuel
      → Refines m k free before
          ((a, n) ∷ bs)
          (fit units align ((a, n) ∷ bs))
          (page_search fuel m free units align (address before) a)
  page_search-Refines zero before a n bs f l pos enough = absurd (omega arith)
  page_search-Refines (suc fuel) before a n [] f l pos enough =
      elim (Bool-cases (leb (units + align_gap a align) n)) [
        | inl h ↦ fits_Refines fuel before a n [] f l pos h
        | inr h ↦
            rw
              (
                fit-skip a n [] h,
                fit-nil,
                search-last fuel before a n f.0.units h (slob_last-end f.0 refl),
              )
              (Refines-cons before a n [] none (some none) f l refl)
      ]
  page_search-Refines (suc fuel) before a n ((b, w) ∷ bs) f l pos enough =
      elim (Bool-cases (leb (units + align_gap a align) n)) [
        | inl h ↦ fits_Refines fuel before a n ((b, w) ∷ bs) f l pos h
        | inr h ↦
            rw
              (
                fit-skip a n ((b, w) ∷ bs) h,
                search-next fuel before a n b f.0.units h
                    (slob_last-inner f.0 (omega (arith, f.1.0.pos, f.1.0.room, f.1.0.high)))
                    f.0.link,
              )
              (Refines-cons before a n ((b, w) ∷ bs) _ _ f l
                (page_search-Refines fuel (some (a, n)) b w bs f.1 f.0 pos (omega arith)))
      ]
