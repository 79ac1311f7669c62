-- ===== src/Dinners/Threads/Keep.antt =====
-- What a change of the list, or of the owners of the nodes, leaves to the threads of
-- concur/concurrent3/3way.c that do not make it.
use cs.Common.{
  ℕ, ◌≤◌, ◌<◌, ◌≡◌, inl, inr, refl, ap, ◌∙◌, false, arith, ◌==◌, List, length, All, All-mono,
  Bool-cases, update,
}
use cs.Dinners.{State}
use cs.Dinners.Chain.{node_at}
use cs.Dinners.Threads.{
  SearcherPc, s_resting, s_testing, s_drawing, s_looking, s_walking, s_leaving, s_crashed,
  DeleterPc, d_resting, d_second, d_testing, d_third, d_drawing, d_entering, d_walking, d_unlinking,
  d_counting, d_freeing, d_unlock_deleters, d_unlock_inserters, d_unlock_searchers, d_crashed,
}
use cs.Dinners.Threads.Whole.{of_deleter, IsSearcher, IsDeleter}

-- Nodes of different owners differ.
pub differ : (owner : ℕ → ℕ) (y n : ℕ) → (owner y == owner n) ≡ false → (y == n) ≡ false
differ owner y n ne = elim (Bool-cases (y == n)) [
  | inl e ↦ let same : y ≡ n = ground arith in absurd (ground (arith, ap owner same, ne))
  | inr other ↦ other
]

pub searcher_keeps :
    (st st' : State) (xs xs' : List ℕ) (pc : SearcherPc)
    → (0 < st.dinner_count → 0 < st'.dinner_count)
    → length xs ≤ length xs'
    → ((k : ℕ) → k < length xs → node_at k xs ≡ node_at k xs')
    → IsSearcher st xs pc
    → IsSearcher st' xs' pc
searcher_keeps st st' xs xs' s_resting some_left le same h = tt
searcher_keeps st st' xs xs' s_testing some_left le same h = tt
searcher_keeps st st' xs xs' s_drawing some_left le same h = some_left h
searcher_keeps st st' xs xs' (s_looking t) some_left le same h = (h.0, omega (arith, h.1, le))
searcher_keeps st st' xs xs' (s_walking curr c t) some_left le same (k, number, small, most, node) =
    (k, number, small, omega (arith, most, le), node ∙ same k (omega (arith, number, small, most)))
searcher_keeps st st' xs xs' s_leaving some_left le same h = tt
searcher_keeps st st' xs xs' s_crashed some_left le same h = h

pub deleter_keeps :
    (st st' : State) (owner owner' : ℕ → ℕ) (xs : List ℕ) (j : ℕ) (pc : DeleterPc)
    → (0 < st.dinner_count → 0 < st'.dinner_count)
    → ((c : ℕ) → 0 < c → owner c ≡ of_deleter j → owner' c ≡ of_deleter j)
    → IsDeleter st owner xs j pc
    → IsDeleter st' owner' xs j pc
deleter_keeps st st' owner owner' xs j d_third some_left keep h = some_left h
deleter_keeps st st' owner owner' xs j d_drawing some_left keep h = some_left h
deleter_keeps st st' owner owner' xs j (d_entering t) some_left keep h = h
deleter_keeps st st' owner owner' xs j (d_walking p c n t) some_left keep h = h
deleter_keeps st st' owner owner' xs j (d_unlinking p c) some_left keep h = h
deleter_keeps st st' owner owner' xs j (d_counting c) some_left keep h = (h.0, keep c h.0 h.1)
deleter_keeps st st' owner owner' xs j (d_freeing c) some_left keep h = (h.0, keep c h.0 h.1)
deleter_keeps st st' owner owner' xs j d_crashed some_left keep h = h
deleter_keeps st st' owner owner' xs j d_resting some_left keep h = tt
deleter_keeps st st' owner owner' xs j d_second some_left keep h = tt
deleter_keeps st st' owner owner' xs j d_testing some_left keep h = tt
deleter_keeps st st' owner owner' xs j d_unlock_deleters some_left keep h = tt
deleter_keeps st st' owner owner' xs j d_unlock_inserters some_left keep h = tt
deleter_keeps st st' owner owner' xs j d_unlock_searchers some_left keep h = tt

-- A node that changes its owner is none of the nodes of others.
pub owner_keeps :
    (owner : ℕ → ℕ) (n v y : ℕ) → (owner y == owner n) ≡ false → update owner n v y ≡ owner y
owner_keeps owner n v y ne = rw (differ owner y n ne) refl

pub listed_away :
    (owner : ℕ → ℕ) (n : ℕ) (xs : List ℕ)
    → (1 == owner n) ≡ false
    → All (λ y. owner y ≡ 1) xs
    → All (λ y. (y == n) ≡ false) xs
listed_away owner n xs ne = All-mono _ _ (λ y e. differ owner y n (rw e ne)) xs

pub listed_keeps :
    (owner : ℕ → ℕ) (n v : ℕ) (xs : List ℕ)
    → (1 == owner n) ≡ false
    → All (λ y. owner y ≡ 1) xs
    → All (λ y. update owner n v y ≡ 1) xs
listed_keeps owner n v xs ne = All-mono _ _ (λ y e. owner_keeps owner n v y (rw e ne) ∙ e) xs
