-- ===== src/Slob/Allocator/Alloc.antt =====
-- `slob_alloc` of indwriterups/project4/slob.c, with BEST_FIT, without CONFIG_NUMA.
pub mod FreshPage
pub mod TakePage
use cs.Common.{
  ℕ, zero, suc, ◌+◌, ◌*◌, ◌/◌, ◌%◌, Bool, true, false, Option, none, some, List, [], ◌∷◌, ◌++◌,
  ◌&&◌, leb, ltb, ◌==◌, if◌then◌else◌, update,
}
use cs.Slob.Block.{Mem, page_units, slob_units_of, set_slob}
use cs.Slob.Allocator.{
  SlobPage, State, Run, ok, bug, endless, with_page, set_slob_page_free, size_class,
  slob_page_alloc,
}
use cs.Slob.Allocator.BestFit.{best_fit}

-- `memset(b, 0, size)` on units, low byte first
unfoldable pub clear : Mem → (b size : ℕ) → Mem
clear m b size x =
    if leb b x && ltb x (b + size / 2)
    then 0
    else if x == b + size / 2 && size % 2 == 1
    then m x / 256 * 256
    else m x

-- The page that follows `sp` on a list, and the one that precedes it.
follower : ℕ → List ℕ → Option ℕ
follower sp [] = none
follower sp (x ∷ []) = none
follower sp (x ∷ y ∷ xs) = if x == sp then some y else follower sp (y ∷ xs)

leader : ℕ → List ℕ → Option ℕ
leader sp [] = none
leader sp (x ∷ []) = none
leader sp (x ∷ y ∷ xs) = if y == sp then some x else leader sp (y ∷ xs)

-- `list_move_tail(slob_list, prev->next)`: the list is turned so that it starts behind `q`.
turn : ℕ → List ℕ → List ℕ → List ℕ
turn q passed [] = passed
turn q passed (x ∷ xs) =
    let later = turn q (passed ++ x ∷ []) xs in if x == q then xs ++ passed ++ x ∷ [] else later

-- The loop over the list `list` with `sp = best_page`. `endless`: the fuel ran out.
page_loop :
    (fuel : ℕ) → State → (list sp size align : ℕ) → (best prev : Option ℕ) → Run (State × Option ℕ)
unfolding follower leader turn
page_loop zero st list sp size align best prev = endless
page_loop (suc fuel) st list sp size align best prev =
    let again : Run (State × Option ℕ) = elim (follower sp (st.lists list)) [
      | none ↦ ok (st, none)
      | some _ ↦ page_loop fuel st list sp size align best prev
    ] in
    let run = slob_page_alloc st sp size align best prev in
    if ltb (st.page sp).units (slob_units_of size) then again else elim run [
      | ok (st', none) ↦ again
      | ok (st', some b) ↦ elim (leader sp (st.lists list)) [
        | none ↦ ok (st', some b)
        | some q ↦ ok (
          record st' { lists = λ i. if i == list then turn q [] (st'.lists i) else st'.lists i },
          some b,
        )
      ]
      | bug ↦ bug
      | endless ↦ endless
    ]

-- if (!best_page) goto skip_loop; and the loop over a list that is not empty
pub scan :
    (fuel : ℕ)
    → State
    → (list size align : ℕ) → (best_page best prev : Option ℕ) → Run (State × Option ℕ)
unfolding page_loop
scan fuel st list size align none best prev = ok (st, none)
scan fuel st list size align (some sp) best prev = elim (st.lists list) [
  | [] ↦ ok (st, none)
  | _ ∷ _ ↦ page_loop fuel st list sp size align best prev
]

-- A page from the page allocator as one free block of 2048 units, first on the list.
unfoldable pub prepare_page : State → (list sp : ℕ) → State
prepare_page st list sp =
    let b = sp * page_units in
    let p = st.page sp in
    let st1 : State = record st {
      mem = set_slob st.mem b page_units (b + page_units);
      page = update st.page sp (record p { slab = true; units = page_units; free = b });
    } in
    set_slob_page_free st1 sp list

-- "Not enough space: must allocate a new page": `fresh` is the page that `slob_new_pages` returned.
unfoldable pub new_page :
    State → (list size align : ℕ) → (fresh : Option ℕ) → Run (State × Option ℕ)
unfolding prepare_page
new_page st list size align none = ok (st, none)
new_page st list size align (some sp) =
    elim (slob_page_alloc (prepare_page st list sp) sp size align none none) [
      | ok (st', none) ↦ bug
      | ok (st', some x) ↦ ok (st', some x)
      | bug ↦ bug
      | endless ↦ endless
    ]

-- `__GFP_ZERO`
unfoldable pub zeroed :
    (zero_it : Bool) (size : ℕ) → Run (State × Option ℕ) → Run (State × Option ℕ)
unfolding clear
zeroed true size (ok (st, some b)) = ok (record st { mem = clear st.mem b size }, some b)
zeroed _ size r = r

-- `best_page`, `best_slob` and `prev_slob` are null, `best_fit` is called with their values, and
-- nothing assigns them afterwards.
unfoldable pub slob_alloc :
    (fuel : ℕ)
    → State
    → (size align : ℕ) → (zero_it : Bool) → (fresh : Option ℕ) → Run (State × Option ℕ)
unfolding scan new_page zeroed
slob_alloc fuel st size align zero_it fresh =
    let list = size_class size in
    let found = scan fuel st list size align none none none in
    elim (best_fit st list size align) [
      | none ↦ endless
      | some _ ↦ zeroed zero_it size (elim found [
        | ok (st', some b) ↦ ok (st', some b)
        | ok (st', none) ↦ new_page st' list size align fresh
        | bug ↦ bug
        | endless ↦ endless
      ])
    ]
