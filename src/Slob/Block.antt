-- ===== src/Slob/Block.antt =====
-- Free blocks in memory, indwriterups/project4/slob.c: `set_slob`, `slob_units`, `slob_next`,
-- `slob_last`. An address counts units of `SLOB_UNIT` = 2 bytes (`slobidx_t` is `s16`, since a page
-- has 4096 bytes), so a page is 2048 units; a unit holds the 16-bit pattern of its `s16`.
pub mod FreeList
use cs.Common.{ℕ, ◌+◌, ◌-◌, ◌*◌, ◌/◌, ◌%◌, Bool, ◌&&◌, ltb, leb, ◌==◌, if◌then◌else◌, update}

abbrev pub Mem : Type 0
Mem = ℕ → ℕ

-- `SLOB_UNITS(PAGE_SIZE)`
abbrev pub page_units : ℕ
page_units = 2048

-- `SLOB_UNITS(size)`
unfoldable pub slob_units_of : ℕ → ℕ
slob_units_of size = (size + 1) / 2

-- `(slob_t *)((unsigned long)s & PAGE_MASK)`
abbrev pub page_base : ℕ → ℕ
page_base s = s / 2048 * 2048

-- An `s16` is positive, or negative, by its pattern.
abbrev pub is_pos : ℕ → Bool
is_pos u = ltb 0 u && ltb u 32768

abbrev pub is_neg : ℕ → Bool
is_neg u = leb 32768 u

-- The pattern of `-u`.
abbrev pub neg : ℕ → ℕ
neg u = (65536 - u) % 65536

-- `next - base` as an `s16`; `65535 * b` is `-b` modulo 65536.
abbrev pub offset_of : (next base : ℕ) → ℕ
offset_of next base = (next + 65535 * base) % 65536

-- `base + next` for the `s16` with pattern `next`
abbrev pub add_offset : (base next : ℕ) → ℕ
add_offset base next = if is_neg next then base + next - 65536 else base + next

-- `set_slob`: `size` is the pattern of an `s16`.
unfoldable pub set_slob : Mem → (s size next : ℕ) → Mem
set_slob m s size next =
    let offset = offset_of next (page_base s) in
    if ltb 1 size && ltb size 32768
    then update (update m s size) (s + 1) offset
    else update m s (neg offset)

unfoldable pub slob_units : Mem → ℕ → ℕ
slob_units m s = if is_pos (m s) then m s else 1

unfoldable pub slob_next : Mem → ℕ → ℕ
slob_next m s = add_offset (page_base s) (if is_neg (m s) then neg (m s) else m (s + 1))

-- The last free block of a page points to the start of a page.
unfoldable pub slob_last : Mem → ℕ → Bool
unfolding slob_next
slob_last m s = slob_next m s % 2048 == 0
