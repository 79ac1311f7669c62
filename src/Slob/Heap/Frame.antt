-- ===== src/Slob/Heap/Frame.antt =====
-- The pages and blocks that a change of one page leaves as they are.
use mathlib.Core.Path.{subst}
use cs.Common.{
  ℕ, ◌+◌, ◌*◌, ◌≤◌, ◌<◌, ◌≡◌, ◌⊎◌, inl, inr, refl, sym, ap, ◌∙◌, true, false, List, [], ◌∷◌, arith,
  All, All-mono, ◌==◌, Bool-cases, update,
}
use cs.Slob.Block.{Mem, slob_units_of}
use cs.Slob.Block.FreeList.{Block, FreeList, FreeList-frame, Beside, Outside, IsBlock-frame}
use cs.Slob.PageFree.Refine.{Disjoint}
use cs.Slob.Allocator.{State, slob_page, is_slob_page}
use cs.Slob.Allocator.Page.{IsPage, start-low}
use cs.Slob.Allocator.Free.Page.{InPage}
use cs.Slob.Heap.{Used, Apart, Held, live_units, Unused, IsPart, IsHeld}

pub eq_of_test : (k sp : ℕ) → (k == sp) ≡ true → sp ≡ k
eq_of_test k sp e = ground arith

pub test_refl : (k : ℕ) → (k == k) ≡ true
test_refl k = ground arith

-- A claim about the page `sp`, and about every other page.
pub at_page : (P : ℕ → Type 0) (sp k : ℕ) → P sp → ((k == sp) ≡ false → P k) → P k
at_page P sp k here there = elim (Bool-cases (k == sp)) [
  | inl e ↦ subst P (eq_of_test k sp e) here
  | inr ne ↦ there ne
]

pub update-same : (f : ℕ → List Block) (sp : ℕ) (bs : List Block) → update f sp bs sp ≡ bs
update-same f sp bs = rw (test_refl sp) refl

pub update-other :
    (f : ℕ → List Block) (sp : ℕ) (bs : List Block) (k : ℕ)
    → (k == sp) ≡ false
    → update f sp bs k ≡ f k
update-other f sp bs k ne = rw ne refl

-- A unit of another page lies outside the free blocks of a page.
pub Outside-page :
    (m : Mem) (sp y : ℕ) (bs : List Block)
    → FreeList m sp bs
    → (y < sp * 2048) ⊎ (sp * 2048 + 2048 ≤ y)
    → Outside y bs
Outside-page m sp y [] f out = tt
Outside-page m sp y ((a, n) ∷ bs) f out =
    (omega (arith, out, f.0.low, f.0.room, f.0.high), Outside-page m sp y bs f.1 out)

-- A unit outside the page `sp`.
abbrev pub Elsewhere : (sp y : ℕ) → Type 0
Elsewhere sp y = (y < sp * 2048) ⊎ (sp * 2048 + 2048 ≤ y)

pub Elsewhere-of_page :
    (sp k y : ℕ) → (k == sp) ≡ false → k * 2048 ≤ y → y < k * 2048 + 2048 → Elsewhere sp y
Elsewhere-of_page sp k y ne low high = ground (arith, ne)

-- A page that is not written stays what it is.
pub IsPage-frame :
    (st st' : State) (k : ℕ) (bs : List Block)
    → IsPage st k bs
    → st'.page k ≡ st.page k
    → ((y : ℕ) → k * 2048 ≤ y → y < k * 2048 + 2048 → st'.mem y ≡ st.mem y)
    → IsPage st' k bs
IsPage-frame st st' k bs p same frame = record {
  list =
      FreeList-frame st.mem st'.mem k bs p.list
        (λ y lo hi. frame y (omega (arith, start-low st.mem k bs p.list)) hi);
  head = rw same p.head;
  count = rw same p.count;
}

-- A change of the page `sp`, and of its memory only.
pub record Local (sp : ℕ) (st st' : State) : Type 0 where
  pub others : (k : ℕ) → (k == sp) ≡ false → st'.page k ≡ st.page k
  pub frame : (y : ℕ) → Elsewhere sp y → st'.mem y ≡ st.mem y

pub IsPart-frame :
    (sp : ℕ) (st st' : State) (k : ℕ) (bs : List Block) (live live' : List Held)
    → Local sp st st'
    → (k == sp) ≡ false
    → live_units k live' ≡ live_units k live
    → IsPart st k bs live
    → IsPart st' k bs live'
IsPart-frame sp st st' k bs live live' l ne units p = record {
  page =
      IsPage-frame st st' k bs p.page (l.others k ne)
        (λ y lo hi. l.frame y (Elsewhere-of_page sp k y ne lo hi));
  flag = ap (λ q. q.slob_free) (l.others k ne) ∙ p.flag;
  sum = rw units p.sum;
}

-- A block in use stays one if its page stays, or if what keeps away from the old free blocks of the
-- changed page keeps away from the new ones.
pub IsHeld-frame :
    (sp : ℕ) (st st' : State) (f : ℕ → List Block) (bs : List Block) (c : Held)
    → Local sp st st'
    → ((slob_page c.0 == sp) ≡ true
        → (is_slob_page st' sp ≡ true)
          × (0 < slob_units_of c.1
              → Disjoint c.0 (slob_units_of c.1) (f sp)
              → Disjoint c.0 (slob_units_of c.1) bs))
    → IsHeld st f c
    → IsHeld st' (update f sp bs) c
unfolding slob_units_of
IsHeld-frame sp st st' f bs (b, s) l here (slab, inside, apart) =
    elim (Bool-cases (slob_page b == sp)) [
      | inl e ↦
          let at : sp ≡ slob_page b = eq_of_test (slob_page b) sp e in
          let (slab', keeps) = here e in
          let pos : 0 < slob_units_of s = omega (arith, inside.sized) in
          (
            subst (λ k. is_slob_page st' k ≡ true) at slab',
            inside,
            rw e (keeps pos (subst (λ k. Disjoint b (slob_units_of s) (f k)) (sym at) apart)),
          )
      | inr ne ↦ (ap (λ q. q.slab) (l.others (slob_page b) ne) ∙ slab, inside, rw ne apart)
    ]

-- A block in use lies in its page, and beside the blocks `bs` if that is the page `k`.
abbrev pub IsBeside : (k : ℕ) → List Block → Held → Type 0
IsBeside k bs c =
    InPage (slob_page c.0) c.0 c.1
    × ((slob_page c.0 == k) ≡ true → Disjoint c.0 (slob_units_of c.1) bs)

unit_Beside :
    (k a n y : ℕ) (bs : List Block) (c : Held)
    → k * 2048 ≤ a
    → a + n ≤ k * 2048 + 2048
    → a ≤ y
    → y < a + n
    → IsBeside k ((a, n) ∷ bs) c
    → Beside y c.0 (slob_units_of c.1)
unit_Beside k a n y bs (b, s) low high le lt (inside, apart) =
    elim (Bool-cases (slob_page b == k)) [
      | inl here ↦ ground (arith, (apart here).0)
      | inr there ↦ ground (
        arith,
        Elsewhere-of_page (slob_page b) k y (ground arith) (omega arith) (omega arith),
        inside.low,
        inside.high,
      )
    ]

-- Writes outside the blocks in use and the free blocks of a page leave its free list.
pub FreeList-Unused :
    (m m' : Mem) (k : ℕ) (bs : List Block) (live : List Held)
    → FreeList m k bs
    → All (IsBeside k bs) live
    → ((y : ℕ) → k * 2048 ≤ y → y < k * 2048 + 2048 → Unused y live → m' y ≡ m y)
    → FreeList m' k bs
FreeList-Unused m m' k [] live f beside same = tt
FreeList-Unused m m' k ((a, n) ∷ bs) live f beside same =
    let high : a + n ≤ k * 2048 + 2048 = omega (arith, f.0.room, f.0.high) in
    (
      IsBlock-frame m m' f.0 (λ y le lt.
          same y (omega (arith, f.0.low)) (omega arith)
            (All-mono _ _ (λ c b. unit_Beside k a n y bs c f.0.low high le lt b) live beside)),
      FreeList-Unused m m' k bs live f.1
          (All-mono (IsBeside k ((a, n) ∷ bs)) (IsBeside k bs) (λ c b. (b.0, λ e. (b.1 e).1)) live
            beside)
          same,
    )

-- A unit of a block in use lies outside the blocks that share no unit with any of them.
pub Used-Beside :
    (y b u : ℕ) (live : List Held)
    → All (λ c. Apart b u c.0 (slob_units_of c.1)) live
    → Used y live
    → Beside y b u
Used-Beside y b u [] apart used = absurd used
Used-Beside y b u (c ∷ live) apart (inl here) = omega (arith, apart.0, here)
Used-Beside y b u (c ∷ live) apart (inr later) = Used-Beside y b u live apart.1 later

-- A unit of a block in use is not free.
pub Used-Outside :
    (m : Mem) (k y : ℕ) (bs : List Block) (live : List Held)
    → FreeList m k bs
    → All (IsBeside k bs) live
    → Used y live
    → Outside y bs
Used-Outside m k y bs [] f beside used = absurd used
Used-Outside m k y bs ((b, s) ∷ live) f (here, later) (inl (low, high)) =
    elim (Bool-cases (slob_page b == k)) [
      | inl same ↦ All-mono _ _ (λ q away. omega arith) bs (here.1 same)
      | inr other ↦ Outside-page m k y bs f (
          Elsewhere-of_page k (slob_page b) y other (omega (arith, here.0.low))
            (omega (arith, here.0.high)))
    ]
Used-Outside m k y bs (c ∷ live) f (here, later) (inr used) =
    Used-Outside m k y bs live f later used

pub IsBeside-of_held :
    (st : State) (f : ℕ → List Block) (k : ℕ) (c : Held) → IsHeld st f c → IsBeside k (f k) c
IsBeside-of_held st f k c (slab, inside, away) = (
  inside,
  λ e.
      subst (λ j. Disjoint c.0 (slob_units_of c.1) (f j)) (sym (eq_of_test (slob_page c.0) k e))
        away,
)
