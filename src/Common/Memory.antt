-- ===== src/Common/Memory.antt =====
-- Functions from addresses, and writes to them.
use Prim.Native.Nat.{ℕ}
use cs.Common.Tests.{◌==◌, if◌then◌else◌}

-- The function `f` with its value at `i` replaced by `v`.
abbrev pub update {ℓ} : {A : Type ℓ} → (ℕ → A) → ℕ → A → ℕ → A
update f i v j = if j == i then v else f j
