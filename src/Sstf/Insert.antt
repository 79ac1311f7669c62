-- ===== src/Sstf/Insert.antt =====
-- `sstf_add_request` as insertion into a sorted list.
use mathlib.Core.List.{Perm, reverse-reverse}
use mathlib.Core.List.Perm
use cs.Common.{
  ◌≤◌, ◌<◌, ◌≡◌, refl, inl, inr, List, [], ◌∷◌, ◌++◌, reverse, sym, ◌∙◌, arith, ltb, if◌then◌else◌,
  Bool-cases, ltb→lt, ltb→le, All, All-mono, All-reverse, reverse-cons,
}
use cs.Sstf.{Request, SstfData, add_from_tail, add_request}

-- Ascending by sector.
abbrev pub IsSorted : List Request → Type 0
IsSorted [] = Unit
IsSorted (x ∷ xs) = All (λ y. x.pos ≤ y.pos) xs × IsSorted xs

-- The reference: in front of the first request that is not below the new one.
pub insert : Request → List Request → List Request
insert rq [] = rq ∷ []
insert rq (x ∷ xs) = if ltb x.pos rq.pos then x ∷ insert rq xs else rq ∷ x ∷ xs

add_from_tail-snoc :
    (rq x : Request) (ys : List Request)
    → x.pos < rq.pos
    → add_from_tail rq (ys ++ x ∷ []) ≡ add_from_tail rq ys ++ x ∷ []
unfolding add_from_tail
add_from_tail-snoc rq x [] h = ground arith
add_from_tail-snoc rq x (y ∷ ys) h = ground (arith, add_from_tail-snoc rq x ys h)

add_from_tail-above :
    (rq : Request) (ys : List Request)
    → All (λ y. rq.pos ≤ y.pos) ys
    → add_from_tail rq ys ≡ ys ++ rq ∷ []
unfolding add_from_tail
add_from_tail-above rq [] h = refl
add_from_tail-above rq (y ∷ ys) h = ground (arith, add_from_tail-above rq ys h.1)

add_from_tail-insert :
    (rq : Request) (q : List Request)
    → IsSorted q
    → add_from_tail rq (reverse q) ≡ reverse (insert rq q)
unfolding add_from_tail insert
add_from_tail-insert rq [] h = refl
add_from_tail-insert rq (x ∷ xs) h = elim (Bool-cases (ltb x.pos rq.pos)) [
  | inl below ↦
      rw
        (
          below,
          reverse-cons x xs,
          reverse-cons x (insert rq xs),
          add_from_tail-snoc rq x (reverse xs) (ltb→lt _ _ below),
          add_from_tail-insert rq xs h.1,
        )
        refl
  | inr above ↦ rw above (
      add_from_tail-above rq (reverse (x ∷ xs)) (
        All-reverse _ (x ∷ xs)
          (ltb→le _ _ above, All-mono _ _ (λ y le. omega (arith, ltb→le _ _ above)) xs h.0))
      ∙ sym (reverse-cons rq (x ∷ xs)))
]

All-insert :
    (P : Request → Type 0) (rq : Request) (q : List Request) → P rq → All P q → All P (insert rq q)
unfolding insert
All-insert P rq [] p h = (p, tt)
All-insert P rq (x ∷ xs) p h = elim (Bool-cases (ltb x.pos rq.pos)) [
  | inl below ↦ rw below (h.0, All-insert P rq xs p h.1)
  | inr above ↦ rw above (p, h)
]

insert-IsSorted : (rq : Request) (q : List Request) → IsSorted q → IsSorted (insert rq q)
unfolding insert
insert-IsSorted rq [] h = (tt, tt)
insert-IsSorted rq (x ∷ xs) h = elim (Bool-cases (ltb x.pos rq.pos)) [
  | inl below ↦
      rw below (All-insert _ rq xs (omega (arith, ltb→lt _ _ below)) h.0, insert-IsSorted rq xs h.1)
  | inr above ↦
      rw above
        ((ltb→le _ _ above, All-mono _ _ (λ y le. omega (arith, ltb→le _ _ above)) xs h.0), h)
]

insert-perm : (rq : Request) (q : List Request) → Perm (insert rq q) (rq ∷ q)
unfolding insert
insert-perm rq [] = Perm.refl (rq ∷ [])
insert-perm rq (x ∷ xs) = elim (Bool-cases (ltb x.pos rq.pos)) [
  | inl below ↦ rw below (Perm.trans (Perm.cons x (insert-perm rq xs)) (Perm.swap rq x xs))
  | inr above ↦ rw above (Perm.refl (rq ∷ x ∷ xs))
]

-- On a queue in ascending order of sectors, `sstf_add_request` inserts the request in front of
-- the first one whose sector is not below its own: the queue stays in order, it holds the old
-- requests and the new one, and the direction and the last sector are as before.
pub add_request_lem :
    (nd : SstfData) (rq : Request)
    → IsSorted nd.queue
    → (add_request nd rq ≡ record nd { queue = insert rq nd.queue })
      × IsSorted (add_request nd rq).queue
      × Perm (add_request nd rq).queue (rq ∷ nd.queue)
unfolding add_request
add_request_lem nd rq h =
    let e : reverse (add_from_tail rq (reverse nd.queue)) ≡ insert rq nd.queue =
      rw (add_from_tail-insert rq nd.queue h) (reverse-reverse (insert rq nd.queue)) in
    (
      λ i. record nd { queue = e i },
      rw e (insert-IsSorted rq nd.queue h),
      rw e (insert-perm rq nd.queue),
    )
