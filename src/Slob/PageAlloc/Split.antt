-- ===== src/Slob/PageAlloc/Split.antt =====
-- The two writes of an allocation, on the free list that the memory holds.
use mathlib.Core.Path.{◌∙◌, subst}
use native.Mathlib.Nat.{add-zero}
use cs.Common.{
  ℕ, ◌+◌, ◌-◌, ◌*◌, ◌≤◌, ◌<◌, ◌≡◌, refl, inl, inr, false, Option, none, some, List, ◌∷◌, arith,
  ◌==◌, if◌then◌else◌, Bool-cases,
}
use cs.Slob.Block.{Mem, set_slob}
use cs.Slob.Block.FreeList.{
  IsBlock, set_slob-IsBlock, set_slob-frame, IsBlock-frame, Beside, Block, start, FreeList,
  start-le-end, FreeList-frame,
}
use cs.Slob.PageAlloc.{Cursor, fragment_head, relink, unlink}
use cs.Slob.PageAlloc.Fit.{shrink, carve}

-- The block before the free list that is searched, if the search has passed one.
abbrev pub address : Option Block → Option ℕ
address none = none
address (some (p, _)) = some p

-- The link into a list that starts at `t`: the page's `free` field, or the link of the block before.
abbrev pub Linked : Mem → ℕ → Option Block → (free target : ℕ) → Type 0
Linked m k none free t = free ≡ t
Linked m k (some (p, n)) free t = IsBlock m k p n t

-- A unit outside the block before.
abbrev pub Apart : ℕ → Option Block → Type 0
Apart y none = Unit
Apart y (some (p, n)) = Beside y p n

-- `relink` makes the list `bs'` follow.
relink_lem :
    (m : Mem) (k free : ℕ) (before : Option Block) (s t : ℕ)
    → Linked m k before free s
    → s ≤ t
    → t ≤ k * 2048 + 2048
    → let r = relink m free (address before) t in
      Linked r.0 k before r.1 t × ((y : ℕ) → Apart y before → r.0 y ≡ m y)
unfolding relink
relink_lem m k free none s t l le high = (refl, λ y _. refl)
relink_lem m k free (some (p, n)) s t l le high = rw l.units (
  set_slob-IsBlock m k p n t l.low l.pos (omega (arith, l.room)) high,
  λ y b. set_slob-frame m p n t y l.pos (omega (arith, l.room, l.low, l.high)) b,
)

abbrev pub cursor : Mem → Option Block → (cur avail : ℕ) → Cursor
cursor m before c n = record { mem = m; prev = address before; cur = c; avail = n }

-- A block list, and the link into it, after a change of memory.
pub record Holds (m m' : Mem) (k : ℕ) (before : Option Block) (free : ℕ) (a n : ℕ) (bs : List Block)
    : Type 0 where
  pub list : FreeList m' k bs
  pub linked : Linked m' k before free (start k bs)
  pub frame : (y : ℕ) → Apart y before → Beside y a n → m' y ≡ m y

Apart-above :
    (m : Mem) (k free : ℕ) (before : Option Block) (t : ℕ)
    → Linked m k before free t
    → (y : ℕ) → t ≤ y
    → Apart y before
Apart-above m k free none t l y le = tt
Apart-above m k free (some (p, n)) t l y le = inr (omega (arith, l.room))

pub Linked-frame :
    (m m' : Mem) (k free : ℕ) (before : Option Block) (t : ℕ)
    → Linked m k before free t
    → ((y : ℕ) → y < t → m' y ≡ m y)
    → Linked m' k before free t
Linked-frame m m' k free none t l same = l
Linked-frame m m' k free (some (p, n)) t l same =
    IsBlock-frame m m' l (λ y _ h. same y (omega (arith, l.room)))

unlink_lem :
    (m : Mem) (k free : ℕ) (before : Option Block) (c n : ℕ) (bs : List Block) (units : ℕ)
    → FreeList m k ((c, n) ∷ bs)
    → Linked m k before free c
    → 0 < units
    → units ≤ n
    → let r = unlink (cursor m before c n) free units in
      (r.block ≡ c) × Holds m r.mem k before r.free c n (shrink units c n bs)
unfolding unlink shrink
unlink_lem m k free before c n bs units f l pos le = elim (Bool-cases (n == units)) [
  | inl exact ↦
      let (linked, frame) =
        relink_lem m k free before c (start k bs) l (omega (arith, f.0.room))
          (start-le-end m k bs f.1) in
      rw (exact, f.0.link)
        (
          refl,
          record {
            list =
                FreeList-frame m _ k bs f.1
                  (λ y lo _. frame y (Apart-above m k free before c l y (omega (arith, f.0.room))));
            linked = linked;
            frame = λ y apart _. frame y apart;
          },
        )
  | inr more ↦
      let (linked, frame) =
        relink_lem m k free before c (c + units) l (omega arith)
          (omega (arith, f.0.room, f.0.high)) in
      let less : units < n = ground arith in
      let m1 : Mem = (relink m free (address before) (c + units)).0 in
      let small : n - units < 32768 = omega (arith, f.0.room, f.0.low, f.0.high) in
      let same : (y : ℕ)
          → Apart y before
          → Beside y (c + units) (n - units)
          → set_slob m1 (c + units) (n - units) (start k bs) y ≡ m y =
        λ y apart b.
          set_slob-frame m1 (c + units) (n - units) (start k bs) y (omega arith) small b
          ∙ frame y apart in
      rw (more, f.0.link)
        (
          refl,
          record {
            list = (
              set_slob-IsBlock _ k (c + units) (n - units) (start k bs) (omega (arith, f.0.low))
                  (omega arith) (omega (arith, f.0.room)) f.0.high,
              FreeList-frame m _ k bs f.1 (λ y lo _.
                  same y (Apart-above m k free before c l y (omega (arith, f.0.room)))
                    (omega (arith, f.0.room))),
            );
            linked = Linked-frame _ _ k _ before (c + units) linked (λ y lt.
                set_slob-frame m1 (c + units) (n - units) (start k bs) y (omega arith) small
                  (inl lt));
            frame = λ y apart beside. same y apart (omega arith);
          },
        )
]

fragment_head_lem :
    (m : Mem) (k : ℕ) (before : Option Block) (c n : ℕ) (bs : List Block) (d : ℕ)
    → FreeList m k ((c, n) ∷ bs)
    → 0 < d
    → d < n
    → (m' : Mem) × (fragment_head (cursor m before c n) d ≡ cursor m' (some (c, d)) (c + d) (n - d))
      × FreeList m' k ((c, d) ∷ (c + d, n - d) ∷ bs)
      × ((y : ℕ) → Beside y c n → m' y ≡ m y)
unfolding fragment_head
fragment_head_lem m k before c n bs d f pos less =
    let m1 = set_slob m (c + d) (n - d) (start k bs) in
    let m2 = set_slob m1 c d (c + d) in
    let inner : IsBlock m1 k (c + d) (n - d) (start k bs) =
      set_slob-IsBlock m k (c + d) (n - d) (start k bs) (omega (arith, f.0.low)) (omega arith)
        (omega (arith, f.0.room)) f.0.high in
    let outer : IsBlock m2 k c d (c + d) =
      set_slob-IsBlock m1 k c d (c + d) f.0.low pos (omega arith)
        (omega (arith, f.0.room, f.0.high)) in
    let small : n < 32768 = omega (arith, f.0.room, f.0.low, f.0.high) in
    let above : (y : ℕ) → c + d ≤ y → m2 y ≡ m1 y =
      λ y le. set_slob-frame m1 c d (c + d) y pos (omega arith) (inr le) in
    let inner2 : IsBlock m2 k (c + d) (n - d) (start k bs) =
      IsBlock-frame m1 m2 inner (λ y lo _. above y lo) in
    let same : (y : ℕ) → Beside y c n → m2 y ≡ m y = λ y b.
      set_slob-frame m1 c d (c + d) y pos (omega arith) (omega arith)
      ∙ set_slob-frame m (c + d) (n - d) (start k bs) y (omega arith) (omega arith) (omega arith) in
    let nonzero : (d == 0) ≡ false = ground arith in
    (
      m2,
      rw (nonzero, f.0.link) (λ i. cursor m2 (some (c, d)) (c + d) (inner2.units i)),
      (outer, (inner2, FreeList-frame m m2 k bs f.1 (λ y lo _. same y (omega (arith, f.0.room))))),
      same,
    )

fragment_head-zero : (c : Cursor) → fragment_head c 0 ≡ c
unfolding fragment_head
fragment_head-zero c = refl

-- The page's `free` field stays as it is if a block precedes.
unlink-free :
    (m : Mem) (b : Block) (c n free units : ℕ)
    → (unlink (cursor m (some b) c n) free units).free ≡ free
unfolding unlink relink
unlink-free m b c n free units = ground arith

-- The branch that finds room: what the allocation leaves is what `carve` leaves.
pub carve_lem :
    (m : Mem) (k free : ℕ) (before : Option Block) (c n : ℕ) (bs : List Block) (units d : ℕ)
    → FreeList m k ((c, n) ∷ bs)
    → Linked m k before free c
    → 0 < units
    → units + d ≤ n
    → let r = unlink (fragment_head (cursor m before c n) d) free units in
      (r.block ≡ c + d) × Holds m r.mem k before r.free c n (carve units d c n bs)
unfolding carve
carve_lem m k free before c n bs units d f l pos le = elim (Bool-cases (d == 0)) [
  | inl unaligned ↦
      let d_eq : 0 ≡ d = ground arith in
      subst
        (λ d.
          let r = unlink (fragment_head (cursor m before c n) d) free units in
          (r.block ≡ c + d)
          × Holds m r.mem k before r.free c n
              (if d == 0 then shrink units c n bs else (c, d) ∷ shrink units (c + d) (n - d) bs))
        d_eq
        (rw (fragment_head-zero (cursor m before c n), add-zero c)
          (unlink_lem m k free before c n bs units f l pos (omega arith)))
  | inr aligned ↦
      let (m', e, g, frame) =
        fragment_head_lem m k before c n bs d f (ground arith) (omega arith) in
      let r = unlink (cursor m' (some (c, d)) (c + d) (n - d)) free units in
      let (at, holds) =
        unlink_lem m' k free (some (c, d)) (c + d) (n - d) bs units g.1 g.0 pos (omega arith) in
      let same : (y : ℕ) → Beside y c n → r.mem y ≡ m y =
        λ y b. holds.frame y (omega arith) (omega arith) ∙ frame y b in
      rw (e, aligned)
        (
          at,
          record {
            list = (holds.linked, holds.list);
            linked =
                rw (unlink-free m' (c, d) (c + d) (n - d) free units)
                  (Linked-frame m r.mem k free before c l (λ y lt. same y (inl lt)));
            frame = λ y _ b. same y b;
          },
        )
]

-- The page's `free` field changes only if no block precedes.
abbrev pub Kept : Option Block → (free free' : ℕ) → Type 0
Kept none free free' = Unit
Kept (some _) free free' = free' ≡ free

pub carve-Kept :
    (m : Mem) (free : ℕ) (before : Option Block) (c n units d : ℕ)
    → Kept before free (unlink (fragment_head (cursor m before c n) d) free units).free
unfolding unlink relink fragment_head
carve-Kept m free none c n units d = tt
carve-Kept m free (some b) c n units d = ground arith
