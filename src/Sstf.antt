-- ===== src/Sstf.antt =====
-- The SSTF elevator, indwriterups/project2/sstf-iosched.c: the request queue and the callbacks of
-- `elevator_sstf`. The kernel's circular list `queue` is the list of its requests from
-- `queue.next` to `queue.prev`; a walk by `list_for_each_prev` is a walk over the reversed list.
mod Insert
mod Find
mod Dispatch
mod Sweep
mod Tests
use cs.Common.{
  ℕ, Bool, true, false, Option, none, some, List, [], ◌∷◌, reverse, ltb, ◌==◌, if◌then◌else◌,
}

-- A block request: who it is, and its first sector, `blk_rq_pos`.
pub record Request : Type 0 where
  pub id : ℕ
  pub pos : ℕ

-- `SSTF_NEXT` and `SSTF_PREV`
pub data Direction : Type 0 where
  next prev : Direction

-- `struct sstf_data`
pub record SstfData : Type 0 where
  pub direction : Direction
  pub prevsec : ℕ
  pub queue : List Request

-- `sstf_init_queue`: `alloc` says whether `kmalloc_node` returned memory.
pub init_queue : (alloc : Bool) → Option SstfData
init_queue false = none
init_queue true = some (record { direction = next; prevsec = 0; queue = [] })

-- The walk of `sstf_add_request` from the tail, and `list_add` behind the request where it stopped.
-- If it stops at none, it stops at the head of the list, and the new request becomes the first.
add_from_tail : Request → List Request → List Request
add_from_tail rq [] = rq ∷ []
add_from_tail rq (x ∷ xs) = if ltb x.pos rq.pos then rq ∷ x ∷ xs else x ∷ add_from_tail rq xs

-- `sstf_add_request`
pub add_request : SstfData → Request → SstfData
add_request nd rq = record nd { queue = reverse (add_from_tail rq (reverse nd.queue)) }

-- What `list_for_each` finds: the first request that passes the test, and the others in order.
pub find_first : (Request → Bool) → List Request → Option (Request × List Request)
find_first p [] = none
find_first p (x ∷ xs) =
    let later = find_first p xs in
    if p x then some (x, xs) else elim later [ none ↦ none | some (y, ys) ↦ some (y, x ∷ ys) ]

-- The same walk by `list_for_each_prev`.
pub find_last : (Request → Bool) → List Request → Option (Request × List Request)
unfolding find_first
find_last p xs = elim (find_first p (reverse xs)) [
  | none ↦ none
  | some (y, ys) ↦ some (y, reverse ys)
]

-- The request that is chosen, the direction afterwards, and the queue without the request. After a
-- walk that found none, `next_head` is the head of the list, so `next_head->prev` is the last
-- request and `next_head->next` the first.
choose : Direction → ℕ → List Request → Option (Direction × Request × List Request)
unfolding find_first find_last
choose next sec q = elim (find_first (λ x. ltb sec x.pos) q) [
  | some (rq, rest) ↦ some (next, rq, rest)
  | none ↦ elim (find_last (λ _. true) q) [ some (rq, rest) ↦ some (prev, rq, rest) | none ↦ none ]
]
choose prev sec q = elim (find_last (λ x. ltb x.pos sec) q) [
  | some (rq, rest) ↦ some (prev, rq, rest)
  | none ↦ elim (find_first (λ _. true) q) [ some (rq, rest) ↦ some (next, rq, rest) | none ↦ none ]
]

-- `sstf_dispatch`: the new state, and the request handed to `elv_dispatch_add_tail` (the result 1)
-- or none (the result 0). `choose` finds nothing exactly if the queue is empty.
pub dispatch : SstfData → SstfData × Option Request
unfolding choose
dispatch nd = elim (choose nd.direction nd.prevsec nd.queue) [
  | none ↦ (nd, none)
  | some (d, rq, rest) ↦ (record { direction = d; prevsec = rq.pos; queue = rest }, some rq)
]

-- `list_del_init` of a queued request
remove : ℕ → List Request → List Request
remove i [] = []
remove i (x ∷ xs) = if x.id == i then xs else x ∷ remove i xs

-- `sstf_merged_requests`
pub merged_requests : SstfData → (rq following : Request) → SstfData
unfolding remove
merged_requests nd rq following = record nd { queue = remove following.id nd.queue }

-- The neighbour that precedes the request `i`; `before` is what precedes the list.
neighbour : Option Request → ℕ → List Request → Option Request
neighbour before i [] = none
neighbour before i (x ∷ xs) = if x.id == i then before else neighbour (some x) i xs

-- `sstf_former_request`
pub former_request : SstfData → Request → Option Request
unfolding neighbour
former_request nd rq = neighbour none rq.id nd.queue

-- `sstf_latter_request`
pub latter_request : SstfData → Request → Option Request
unfolding neighbour
latter_request nd rq = neighbour none rq.id (reverse nd.queue)

-- `sstf_exit_queue` stops at `BUG_ON` unless the queue is empty.
pub exit_queue : SstfData → Bool
exit_queue nd = elim nd.queue [ [] ↦ true | _ ∷ _ ↦ false ]
