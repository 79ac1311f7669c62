-- ===== src/Ramdsk/Bytes.antt =====
-- Ranges of memory, and the ranges that a scatter list covers.
use cs.Common.{
  ℕ, zero, suc, ◌+◌, ◌-◌, ◌*◌, ◌^◌, ◌≤◌, ◌<◌, ◌≡◌, ◌⊎◌, inl, inr, refl, ap, ◌∙◌, false, arith, ltb,
  Bool-cases, List, [], ◌∷◌, length, update,
}
use cs.Ramdsk.{Mem, Entry, fill_from, fill_sgl, npages}

-- The `n` bytes from an address on, and a write of bytes there.
unfoldable pub range : Mem → (a n : ℕ) → List ℕ
range m a zero = []
range m a (suc n) = m a ∷ range m (a + 1) n

unfoldable pub store : Mem → ℕ → List ℕ → Mem
store m a [] = m
store m a (x ∷ xs) = update (store m (a + 1) xs) a x

-- The entries cover the `n` bytes from `a` on, without a gap.
abbrev pub Covers : (a n : ℕ) → List Entry → Type 0
Covers a n [] = n ≡ 0
Covers a n (e ∷ es) = (e.buf ≡ a) × (e.len ≤ n) × Covers (a + e.len) (n - e.len) es

pub length-range : (m : Mem) (a n : ℕ) → length (range m a n) ≡ n
unfolding range
length-range m a zero = refl
length-range m a (suc n) = ap suc (length-range m (a + 1) n)

-- Memories that agree on the bytes have the same range.
pub range-same :
    (m m' : Mem) (a n : ℕ) → ((y : ℕ) → a ≤ y → y < a + n → m' y ≡ m y) → range m' a n ≡ range m a n
unfolding range
range-same m m' a zero same = refl
range-same m m' a (suc n) same = cc (
  same a (omega arith) (omega arith),
  range-same m m' (a + 1) n (λ y lo hi. same y (omega arith) (omega arith)),
)

pub store-outside :
    (m : Mem) (a : ℕ) (xs : List ℕ) (y : ℕ) → (y < a) ⊎ (a + length xs ≤ y) → store m a xs y ≡ m y
unfolding store
store-outside m a [] y out = refl
store-outside m a (x ∷ xs) y out = ground (arith, store-outside m (a + 1) xs y)

pub range-store : (m : Mem) (a : ℕ) (xs : List ℕ) → range (store m a xs) a (length xs) ≡ xs
unfolding range store
range-store m a [] = refl
range-store m a (x ∷ xs) =
    let m' = update (store m (a + 1) xs) a x in
    let rest : range m' (a + 1) (length xs) ≡ xs =
      range-same (store m (a + 1) xs) m' (a + 1) (length xs) (λ y lo hi. ground arith)
      ∙ range-store m (a + 1) xs in
    ground (arith, rest)

fill_from-Covers :
    (n buffer off l a r : ℕ)
    → a ≡ buffer + off
    → r + off ≡ l
    → l ≤ off + n * 4096
    → off + n * 4096 < l + 4096
    → Covers a r (fill_from n buffer off l)
unfolding fill_from
fill_from-Covers zero buffer off l a r e f enough tight = omega arith
fill_from-Covers (suc zero) buffer off l a r e f enough tight =
    elim (Bool-cases (ltb l (off + 4096))) [
      | inl last ↦ rw last (omega arith, omega arith, omega arith)
      | inr more ↦ rw more (ground arith, ground arith, ground arith)
    ]
fill_from-Covers (suc (suc n)) buffer off l a r e f enough tight =
    let more : ltb l (off + 4096) ≡ false = ground arith in
    rw more (
      omega arith,
      omega arith,
      fill_from-Covers (suc n) buffer (off + 4096) l (a + 4096) (r - 4096) (omega arith)
          (omega arith) (omega arith) (omega arith),
    )

npages_enough :
    (nbytes : ℕ)
    → nbytes < 2 ^ 32
    → (nbytes ≤ npages nbytes * 4096) × (npages nbytes * 4096 < nbytes + 4096)
unfolding npages
npages_enough nbytes small = ground arith

-- `fill_sgl` with the number of pages of a transfer of less than 4 GB covers the buffer, without a
-- gap, and no byte behind it.
pub fill_sgl-Covers :
    (buffer nbytes : ℕ)
    → nbytes < 2 ^ 32
    → Covers buffer nbytes (fill_sgl (npages nbytes) buffer nbytes)
unfolding fill_sgl
fill_sgl-Covers buffer nbytes small =
    let (enough, tight) = npages_enough nbytes small in
    fill_from-Covers (npages nbytes) buffer 0 nbytes buffer nbytes (omega arith) (omega arith)
      (omega (arith, enough)) (omega (arith, tight))
