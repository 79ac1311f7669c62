-- ===== src/Fuzzer/Modes.antt =====
-- The modes of the descriptors in the pool, sandbox.c of 544final/fuzzer_final/Fuzzy_v_0.5.
use cs.Common.{
  ℕ, zero, suc, ◌+◌, ◌*◌, ◌≤◌, ◌<◌, ◌≡◌, ◌⊎◌, inl, inr, refl, Bool, false, arith, ltb, leb, ◌==◌,
  if◌then◌else◌, Bool-cases, Option, none, some, List, [], ◌∷◌,
}
use cs.Fuzzer.Spec.{arg_uint_fd_wopen}
use cs.Fuzzer.Sandbox.{Tflag, ftw_f, ftw_d, ftw_other, Item, fd_state_closed}
use cs.Fuzzer.Pool.{
  num_wopen, pool_size, o_rdonly, o_wronly, Visit, Pool, add_item, add_opened, populate_file,
  populate_visit, populate_walk, fd_pool_populate, find_mode, mode_of, found_index, find_fd_in_pool,
}

-- The mode that `fd_pool_populate` gives to the item at an index.
abbrev pub mode_at : ℕ → ℕ
mode_at i = if ltb num_wopen i then fd_state_closed else o_rdonly

-- The items in the pool have the modes of their places, the others are as they were.
abbrev IsFilled : (ℕ → Item) → Pool → Type 0
IsFilled items p =
    (p.cnt ≤ pool_size)
    × ((i : ℕ) → ((p.cnt ≤ i) × (p.items i ≡ items i)) ⊎ ((p.items i).mode ≡ mode_at i))

add_item-IsFilled :
    {items : ℕ → Item} (fd : ℕ) (p : Pool)
    → IsFilled items p
    → p.cnt < pool_size
    → IsFilled items (add_item fd (mode_at p.cnt) p)
unfolding add_item
add_item-IsFilled fd p h room = (
  omega arith,
  λ i. elim (Bool-cases (i == p.cnt)) [
    | inl here ↦ inr (ground arith)
    | inr other ↦ elim (h.1 i) [
      | inl beyond ↦ inl (ground arith, ground arith)
      | inr e ↦ inr (ground arith)
    ]
  ],
)

add_opened-IsFilled :
    {items : ℕ → Item} (opened : Option ℕ) (p : Pool)
    → IsFilled items p
    → p.cnt < pool_size
    → IsFilled items (add_opened opened (mode_at p.cnt) p)
unfolding add_opened
add_opened-IsFilled none p h room = h
add_opened-IsFilled (some fd) p h room = add_item-IsFilled fd p h room

populate_file-cases :
    (opened : Option ℕ) (closes : Bool) (p : Pool)
    → (populate_file opened closes p ≡ p)
      ⊎ (populate_file opened closes p ≡ add_opened opened (mode_at p.cnt) p)
unfolding populate_file
populate_file-cases opened closes p = elim (Bool-cases (ltb num_wopen p.cnt)) [
  | inl late ↦ elim (Bool-cases closes) [
    | inl shut ↦ inr (rw (late, shut) refl)
    | inr fails ↦ inl (rw (late, fails) refl)
  ]
  | inr early ↦ inr (rw early refl)
]

populate_file-IsFilled :
    {items : ℕ → Item} (opened : Option ℕ) (closes : Bool) (p : Pool)
    → IsFilled items p
    → p.cnt < pool_size
    → IsFilled items (populate_file opened closes p)
populate_file-IsFilled opened closes p h room = elim (populate_file-cases opened closes p) [
  | inl same ↦ rw same h
  | inr more ↦ rw more (add_opened-IsFilled opened p h room)
]

populate_visit-IsFilled :
    {items : ℕ → Item} (t : Tflag) (opened : Option ℕ) (closes : Bool) (p : Pool)
    → IsFilled items p
    → p.cnt < pool_size
    → IsFilled items (populate_visit t opened closes p)
unfolding populate_visit
populate_visit-IsFilled ftw_f opened closes p h room = populate_file-IsFilled opened closes p h room
populate_visit-IsFilled ftw_d opened closes p h room = h
populate_visit-IsFilled ftw_other opened closes p h room = h

populate_walk-IsFilled :
    {items : ℕ → Item} (vs : List Visit) (p : Pool)
    → IsFilled items p
    → IsFilled items (populate_walk vs p)
unfolding populate_walk
populate_walk-IsFilled [] p h = h
populate_walk-IsFilled (v ∷ vs) p h = elim (Bool-cases (leb pool_size p.cnt)) [
  | inl full ↦ rw full h
  | inr room ↦ rw room (
      populate_walk-IsFilled vs (populate_visit v.tflag v.opened v.closes p)
        (populate_visit-IsFilled v.tflag v.opened v.closes p h (ground (arith, room))))
]

-- Whatever the files are, the pool keeps within its 110 items; those with an index up to 50 are
-- open for reading, all others in it are closed, and nothing changes behind them.
fd_pool_populate_lem :
    (vs : List Visit) (items : ℕ → Item) (i : ℕ)
    → ((fd_pool_populate vs items).cnt ≤ pool_size)
      × ((((fd_pool_populate vs items).cnt ≤ i) × ((fd_pool_populate vs items).items i ≡ items i))
          ⊎ (((fd_pool_populate vs items).items i).mode ≡ mode_at i))
unfolding fd_pool_populate
fd_pool_populate_lem vs items i =
    let p : Pool = record { items = items; cnt = 0 } in
    let (bound, modes) = populate_walk-IsFilled vs p (omega arith, λ j. inl (omega arith, refl)) in
    (bound, modes i)

find_mode-beyond :
    (n i mode : ℕ) (items : ℕ → Item)
    → ((k : ℕ) → k < pool_size → ((items k).mode == mode) ≡ false)
    → (find_mode n i mode items ≡ none)
      ⊎ ((j : ℕ) × (find_mode n i mode items ≡ some j) × (pool_size ≤ j))
unfolding find_mode
find_mode-beyond zero i mode items h = inl refl
find_mode-beyond (suc n) i mode items h = elim (Bool-cases ((items i).mode == mode)) [
  | inl found ↦ inr (
    i,
    rw found refl,
    elim (Bool-cases (ltb i pool_size)) [
      | inl inside ↦ absurd (cc (found, h i (ground arith)))
      | inr outside ↦ ground arith
    ],
  )
  | inr other ↦ rw other (find_mode-beyond n (i + 1) mode items h)
]

no_write_mode :
    (vs : List Visit) (items : ℕ → Item) (k : ℕ)
    → (items k).mode ≡ 0
    → (((fd_pool_populate vs items).items k).mode == o_wronly) ≡ false
no_write_mode vs items k e = elim (fd_pool_populate_lem vs items k).1 [
  | inl (_, same) ↦ rw (same, e) refl
  | inr m ↦ rw m (ground arith)
]

found_index-beyond :
    (r : Option ℕ)
    → (r ≡ none) ⊎ ((j : ℕ) × (r ≡ some j) × (pool_size ≤ j))
    → pool_size ≤ found_index r
unfolding found_index
found_index-beyond r (inl nowhere) = rw nowhere (omega arith)
found_index-beyond r (inr (j, e, bound)) = rw e bound

-- In an array that was filled with zeros before, `fd_pool_populate` never puts a descriptor that is
-- open for writing, and `find_fd_in_pool` then looks for one behind the 110 items: it counts bytes
-- where it means items.
find_fd_in_pool-wopen :
    (vs : List Visit) (items : ℕ → Item)
    → ((k : ℕ) → (items k).mode ≡ 0)
    → pool_size ≤ find_fd_in_pool arg_uint_fd_wopen (fd_pool_populate vs items).items
unfolding find_fd_in_pool mode_of
find_fd_in_pool-wopen vs items h = found_index-beyond _ (
    find_mode-beyond (pool_size * 12) 0 o_wronly (fd_pool_populate vs items).items
      (λ k _. no_write_mode vs items k (h k)))
