-- ===== src/Fuzzer/Rows.antt =====
-- The rows of the table of calls: which types `sandbox_syscall_fuzargs` can draw, sandbox.c and
-- syscall_def.h of 544final/fuzzer_final/Fuzzy_v_0.5.
use cs.Common.{
  ℕ, zero, suc, ◌≤◌, ◌<◌, ◌≡◌, refl, Bool, true, false, arith, ltb, if◌then◌else◌, some, List, [],
  ◌∷◌, get_elem?,
}
use cs.Fuzzer.Spec.{FuzType, arg_end, Call, sys_nanosleep, sys_utime, signature}
use cs.Fuzzer.Fuzarg.{stays_inside}
use cs.Fuzzer.Calls.{count_types}

-- Rows with types that stay inside, and with one in front of the end.
unfoldable pub all_inside : List FuzType → Bool
all_inside [] = true
all_inside (t ∷ ts) = if stays_inside t then all_inside ts else false

unfoldable pub is_row : List FuzType → Bool
is_row ts = if all_inside ts then ltb 0 (count_types ts) else false

unfoldable pub are_rows : ℕ → List (List FuzType) → Bool
are_rows zero rows = true
are_rows (suc n) [] = false
are_rows (suc n) (ts ∷ rows) = if is_row ts then are_rows n rows else false

pub if-both : (a b : Bool) → (if a then b else false) ≡ true → (a ≡ true) × (b ≡ true)
if-both true b e = (refl, e)
if-both false b e = absurd (cc e)

-- The calls without a `timespec` and a `utimbuf`.
unfoldable pub survives : Call → Bool
survives sys_nanosleep = false
survives sys_utime = false
survives c = true

pub signature_rows :
    (c : Call)
    → survives c ≡ true
    → (are_rows (signature c).0 (signature c).1 ≡ true)
      × (0 < (signature c).0)
      × ((signature c).0 ≤ 3)
unfolding signature survives count_types stays_inside all_inside is_row are_rows
signature_rows sys_nanosleep s = absurd (cc s)
signature_rows sys_utime s = absurd (cc s)
signature_rows c s = (refl, omega arith, omega arith)

pub count-get_elem? :
    (ts : List FuzType) (i : ℕ)
    → i < count_types ts
    → all_inside ts ≡ true
    → (t : FuzType) × (get_elem? ts i ≡ some t) × (stays_inside t ≡ true)
unfolding count_types all_inside
count-get_elem? [] i lt h = absurd (omega arith)
count-get_elem? (arg_end ∷ ts) i lt h = absurd (omega arith)
count-get_elem? (t ∷ ts) zero lt h = (t, refl, (if-both (stays_inside t) (all_inside ts) h).0)
count-get_elem? (t ∷ ts) (suc i) lt h =
    count-get_elem? ts i (omega arith) (if-both (stays_inside t) (all_inside ts) h).1
