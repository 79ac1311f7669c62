-- ===== src/Dinners/Threads/Whole.antt =====
-- What the threads of concur/concurrent3/3way.c rely on about the list.
use cs.Common.{
  ℕ, ◌+◌, ◌*◌, ◌≤◌, ◌<◌, ◌≡◌, inl, inr, refl, ap, false, arith, ltb, ◌==◌, List, length, All, sum,
  sum-zero, le-sum, le-sum-two,
}
use cs.Dinners.{State}
use cs.Dinners.Chain.{last_of, node_at, before}
use cs.Dinners.Nodes.{Nodes}
use cs.Dinners.Threads.{
  SearcherPc, s_resting, s_testing, s_drawing, s_looking, s_walking, s_leaving, s_crashed,
  InserterPc, i_resting, i_waiting, i_finding, i_scanning, i_linking, i_counting, i_leaving,
  i_crashed, DeleterPc, d_resting, d_second, d_testing, d_third, d_drawing, d_entering, d_walking,
  d_unlinking, d_counting, d_freeing, d_unlock_deleters, d_unlock_inserters, d_unlock_searchers,
  d_crashed, System,
}
use cs.Dinners.Threads.Locks.{reads, inserts, writes, excludes, one_if, one_if-le, IsLocked}

-- Whose a node is: 0 nobody's, 1 the list's, and then the inserters' and the deleters'.
abbrev pub of_inserter : ℕ → ℕ
of_inserter i = 2 * i + 2

abbrev pub of_deleter : ℕ → ℕ
of_deleter j = 2 * j + 3

-- A searcher's number is that of a node, and it has walked to the node that it has counted.
abbrev pub IsSearcher : State → List ℕ → SearcherPc → Type 0
IsSearcher st xs s_drawing = 0 < st.dinner_count
IsSearcher st xs (s_looking t) = (0 < t) × (t ≤ length xs)
IsSearcher st xs (s_walking curr c t) =
    (k : ℕ) × (c ≡ k + 1) × (c ≤ t) × (t ≤ length xs) × (curr ≡ node_at k xs)
IsSearcher st xs s_crashed = ⊥
IsSearcher st xs pc = Unit

-- An inserter's node is its own and ends the list; its walk is at a node.
abbrev pub IsPending : State → (ℕ → ℕ) → (i new : ℕ) → Type 0
IsPending st owner i new = (0 < new) × (owner new ≡ of_inserter i) × (st.next_dinner new ≡ 0)

abbrev pub IsInserter : State → (ℕ → ℕ) → List ℕ → ℕ → InserterPc → Type 0
IsInserter st owner xs i (i_waiting n) = IsPending st owner i n
IsInserter st owner xs i (i_finding n) = IsPending st owner i n
IsInserter st owner xs i (i_scanning n last) =
    IsPending st owner i n × (k : ℕ) × (k < length xs) × (last ≡ node_at k xs)
IsInserter st owner xs i (i_linking n last) = IsPending st owner i n × (last ≡ last_of 0 xs)
IsInserter st owner xs i i_crashed = ⊥
IsInserter st owner xs i pc = Unit

-- A deleter's number is that of a node, it has walked to the node that it has counted, and the node
-- that it has unlinked is its own.
abbrev pub IsDeleter : State → (ℕ → ℕ) → List ℕ → ℕ → DeleterPc → Type 0
IsDeleter st owner xs j d_third = 0 < st.dinner_count
IsDeleter st owner xs j d_drawing = 0 < st.dinner_count
IsDeleter st owner xs j (d_entering t) = (0 < t) × (t ≤ length xs)
IsDeleter st owner xs j (d_walking prev curr c t) =
    (k : ℕ) × (c ≡ k + 1)
    × (c ≤ t)
    × (t ≤ length xs)
    × (curr ≡ node_at k xs)
    × (prev ≡ before 0 k xs)
IsDeleter st owner xs j (d_unlinking prev curr) =
    (k : ℕ) × (k < length xs) × (curr ≡ node_at k xs) × (prev ≡ before 0 k xs)
IsDeleter st owner xs j (d_counting c) = (0 < c) × (owner c ≡ of_deleter j)
IsDeleter st owner xs j (d_freeing c) = (0 < c) × (owner c ≡ of_deleter j)
IsDeleter st owner xs j d_crashed = ⊥
IsDeleter st owner xs j pc = Unit

-- A node is linked and not counted yet, or counted and not linked any more.
abbrev pub linked : InserterPc → ℕ
linked i_counting = 1
linked pc = 0

abbrev pub unlinked : DeleterPc → ℕ
unlinked (d_counting c) = 1
unlinked pc = 0

-- The list holds the nodes `xs`, `dinner_count` is their number but for the threads between the two
-- writes, and each thread's walk is where it thinks it is.
pub record IsWhole (ns ni nd : ℕ) (sys : System) (owner : ℕ → ℕ) (xs : List ℕ) : Type 0 where
  pub nodes : Nodes sys.dinners xs
  pub listed : All (λ y. owner y ≡ 1) xs
  pub used : (y : ℕ) → sys.allocated y ≡ ltb 0 (owner y)
  pub count :
      sys.dinners.dinner_count + sum linked ni sys.inserter
      ≡ length xs + sum unlinked nd sys.deleter
  pub searchers : (i : ℕ) → i < ns → IsSearcher sys.dinners xs (sys.searcher i)
  pub inserters : (i : ℕ) → i < ni → IsInserter sys.dinners owner xs i (sys.inserter i)
  pub deleters : (j : ℕ) → j < nd → IsDeleter sys.dinners owner xs j (sys.deleter j)

-- The threads that do not hold a lock rely on nothing that it guards.
pub searcher_outside :
    (st : State) (xs : List ℕ) (pc : SearcherPc) → reads pc ≡ 0 → IsSearcher st xs pc
searcher_outside st xs s_resting e = tt
searcher_outside st xs s_testing e = absurd (omega (arith, e))
searcher_outside st xs s_drawing e = absurd (omega (arith, e))
searcher_outside st xs (s_looking t) e = absurd (omega (arith, e))
searcher_outside st xs (s_walking curr c t) e = absurd (omega (arith, e))
searcher_outside st xs s_leaving e = absurd (omega (arith, e))
searcher_outside st xs s_crashed e = absurd (omega (arith, e))

-- An inserter outside `inserters_lock` relies on its own node only.
pub inserter_outside :
    (st st' : State) (owner owner' : ℕ → ℕ) (xs xs' : List ℕ) (i : ℕ) (pc : InserterPc)
    → inserts pc ≡ 0
    → ((n : ℕ) → IsPending st owner i n → IsPending st' owner' i n)
    → IsInserter st owner xs i pc
    → IsInserter st' owner' xs' i pc
inserter_outside st st' owner owner' xs xs' i i_resting e keep h = tt
inserter_outside st st' owner owner' xs xs' i (i_waiting n) e keep h = keep n h
inserter_outside st st' owner owner' xs xs' i (i_finding n) e keep h = absurd (omega (arith, e))
inserter_outside st st' owner owner' xs xs' i (i_scanning n l) e keep h = absurd (omega (arith, e))
inserter_outside st st' owner owner' xs xs' i (i_linking n l) e keep h = absurd (omega (arith, e))
inserter_outside st st' owner owner' xs xs' i i_counting e keep h = absurd (omega (arith, e))
inserter_outside st st' owner owner' xs xs' i i_leaving e keep h = absurd (omega (arith, e))
inserter_outside st st' owner owner' xs xs' i i_crashed e keep h = absurd (omega (arith, e))

-- Nor on the list.
pub inserter_keeps :
    (st st' : State) (owner owner' : ℕ → ℕ) (xs : List ℕ) (i : ℕ) (pc : InserterPc)
    → ((n : ℕ) → IsPending st owner i n → IsPending st' owner' i n)
    → IsInserter st owner xs i pc
    → IsInserter st' owner' xs i pc
inserter_keeps st st' owner owner' xs i i_resting keep h = tt
inserter_keeps st st' owner owner' xs i (i_waiting n) keep h = keep n h
inserter_keeps st st' owner owner' xs i (i_finding n) keep h = keep n h
inserter_keeps st st' owner owner' xs i (i_scanning n l) keep h = (keep n h.0, h.1, h.2, h.3)
inserter_keeps st st' owner owner' xs i (i_linking n l) keep h = (keep n h.0, h.1)
inserter_keeps st st' owner owner' xs i i_counting keep h = tt
inserter_keeps st st' owner owner' xs i i_leaving keep h = tt
inserter_keeps st st' owner owner' xs i i_crashed keep h = h

-- A deleter without `inserters_lock` relies on nothing.
pub deleter_outside :
    (st : State) (owner : ℕ → ℕ) (xs : List ℕ) (j : ℕ) (pc : DeleterPc)
    → excludes pc ≡ 0
    → IsDeleter st owner xs j pc
deleter_outside st owner xs j d_resting e = tt
deleter_outside st owner xs j d_second e = tt
deleter_outside st owner xs j d_unlock_searchers e = tt
deleter_outside st owner xs j d_testing e = tt
deleter_outside st owner xs j d_unlock_deleters e = tt
deleter_outside st owner xs j d_unlock_inserters e = tt
deleter_outside st owner xs j d_third e = absurd (omega (arith, e))
deleter_outside st owner xs j d_drawing e = absurd (omega (arith, e))
deleter_outside st owner xs j (d_entering t) e = absurd (omega (arith, e))
deleter_outside st owner xs j (d_walking p c n t) e = absurd (omega (arith, e))
deleter_outside st owner xs j (d_unlinking p c) e = absurd (omega (arith, e))
deleter_outside st owner xs j (d_counting c) e = absurd (omega (arith, e))
deleter_outside st owner xs j (d_freeing c) e = absurd (omega (arith, e))
deleter_outside st owner xs j d_crashed e = absurd (omega (arith, e))

pub unlinked-le : (pc : DeleterPc) → excludes pc ≡ 0 → unlinked pc ≡ 0
unlinked-le (d_counting c) e = absurd (omega (arith, e))
unlinked-le d_resting e = refl
unlinked-le d_second e = refl
unlinked-le d_testing e = refl
unlinked-le d_third e = refl
unlinked-le d_drawing e = refl
unlinked-le (d_entering t) e = refl
unlinked-le (d_walking p c n t) e = refl
unlinked-le (d_unlinking p c) e = refl
unlinked-le (d_freeing c) e = refl
unlinked-le d_unlock_deleters e = refl
unlinked-le d_unlock_inserters e = refl
unlinked-le d_unlock_searchers e = refl
unlinked-le d_crashed e = refl

pub linked-le : (pc : InserterPc) → inserts pc ≡ 0 → linked pc ≡ 0
linked-le i_counting e = absurd (omega (arith, e))
linked-le i_resting e = refl
linked-le (i_waiting n) e = refl
linked-le (i_finding n) e = refl
linked-le (i_scanning n l) e = refl
linked-le (i_linking n l) e = refl
linked-le i_leaving e = refl
linked-le i_crashed e = refl

pub excludes-le : (pc : DeleterPc) → writes pc ≡ 0 → excludes pc ≡ 0
excludes-le d_resting e = refl
excludes-le d_second e = refl
excludes-le d_unlock_searchers e = refl
excludes-le d_testing e = absurd (omega (arith, e))
excludes-le d_third e = absurd (omega (arith, e))
excludes-le d_drawing e = absurd (omega (arith, e))
excludes-le (d_entering t) e = absurd (omega (arith, e))
excludes-le (d_walking p c n t) e = absurd (omega (arith, e))
excludes-le (d_unlinking p c) e = absurd (omega (arith, e))
excludes-le (d_counting c) e = absurd (omega (arith, e))
excludes-le (d_freeing c) e = absurd (omega (arith, e))
excludes-le d_unlock_deleters e = absurd (omega (arith, e))
excludes-le d_unlock_inserters e = absurd (omega (arith, e))
excludes-le d_crashed e = absurd (omega (arith, e))

-- While a searcher reads, no deleter is between its locks.
module _ (ns ni nd : ℕ) (sys : System) (l : IsLocked ns ni nd sys) where
  pub reading_alone :
      (i : ℕ) → i < ns → 0 < reads (sys.searcher i) → sum unlinked nd sys.deleter ≡ 0
  reading_alone i lt on = elim l.either [
    | inl free ↦ sum-zero unlinked nd sys.deleter (λ j lj. unlinked-le (sys.deleter j) (
        excludes-le (sys.deleter j)
          (omega (arith, le-sum writes nd sys.deleter j lj, l.writer, ap one_if free))))
    | inr unread ↦ absurd (omega (arith, le-sum reads ns sys.searcher i lt, l.readers, unread))
  ]

  -- While an inserter has its lock, no other inserter and no deleter has it.
  pub inserting_alone :
      (i : ℕ)
      → i < ni
      → 0 < inserts (sys.inserter i)
      → ((k : ℕ) → k < ni → (k == i) ≡ false → inserts (sys.inserter k) ≡ 0)
        × ((j : ℕ) → j < nd → excludes (sys.deleter j) ≡ 0)
  inserting_alone i lt on = (
    λ k lk ne. omega (
      arith,
      le-sum-two inserts ni sys.inserter k i lk lt ne,
      l.inserters,
      one_if-le sys.inserters_lock,
    ),
    λ j lj. omega (
      arith,
      le-sum inserts ni sys.inserter i lt,
      le-sum excludes nd sys.deleter j lj,
      l.inserters,
      one_if-le sys.inserters_lock,
    ),
  )

  -- While a deleter has it, no inserter and no other deleter has it, and no searcher reads.
  pub deleting_alone :
      (j : ℕ)
      → j < nd
      → 0 < excludes (sys.deleter j)
      → ((i : ℕ) → i < ns → reads (sys.searcher i) ≡ 0)
        × ((i : ℕ) → i < ni → inserts (sys.inserter i) ≡ 0)
        × ((k : ℕ) → k < nd → (k == j) ≡ false → excludes (sys.deleter k) ≡ 0)
  deleting_alone j lt on = (
    λ i li. elim l.either [
      | inl free ↦ absurd (
          let idle : writes (sys.deleter j) ≡ 0 =
            omega (arith, le-sum writes nd sys.deleter j lt, l.writer, ap one_if free) in
          omega (arith, excludes-le (sys.deleter j) idle, on))
      | inr unread ↦ omega (arith, le-sum reads ns sys.searcher i li, l.readers, unread)
    ],
    λ i li. omega (
      arith,
      le-sum inserts ni sys.inserter i li,
      le-sum excludes nd sys.deleter j lt,
      l.inserters,
      one_if-le sys.inserters_lock,
    ),
    λ k lk ne. omega (
      arith,
      le-sum-two excludes nd sys.deleter k j lk lt ne,
      l.inserters,
      one_if-le sys.inserters_lock,
    ),
  )
