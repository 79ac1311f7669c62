-- ===== src/Common/Lists.antt =====
-- Lists measured and indexed by native numbers, under the library's names, and predicates on lists.
use Prim.Native.Nat.{ℕ, zero, suc, ◌+◌}
use mathlib.Core.Path.{◌≡◌}
use mathlib.Core.List.{List, [], ◌∷◌, ◌++◌, reverse, reverse-append}
use mathlib.Core.Option.{Option, none, some}
use native.Mathlib.Omega.{arith}

module _ {ℓ} {A : Type ℓ} where
  abbrev pub length : List A → ℕ
  length [] = 0
  length (x ∷ xs) = suc (length xs)

  abbrev pub get_elem? : List A → ℕ → Option A
  get_elem? [] i = none
  get_elem? (x ∷ xs) zero = some x
  get_elem? (x ∷ xs) (suc i) = get_elem? xs i

  -- A write out of bounds changes nothing.
  abbrev pub set : List A → ℕ → A → List A
  set [] i v = []
  set (x ∷ xs) zero v = v ∷ xs
  set (x ∷ xs) (suc i) v = x ∷ set xs i v

  pub length-append : (xs ys : List A) → length (xs ++ ys) ≡ length xs + length ys
  length-append [] ys = omega arith
  length-append (x ∷ xs) ys = omega (arith, length-append xs ys)

  pub reverse-cons : (x : A) (xs : List A) → reverse (x ∷ xs) ≡ reverse xs ++ x ∷ []
  reverse-cons x xs = reverse-append (x ∷ []) xs

  abbrev pub All {κ} : (A → Type κ) → List A → Type κ
  All P [] = Unit
  All P (x ∷ xs) = P x × All P xs

  pub All-append {κ} : (P : A → Type κ) (xs ys : List A) → All P xs → All P ys → All P (xs ++ ys)
  All-append P [] ys hx hy = hy
  All-append P (x ∷ xs) ys hx hy = (hx.0, All-append P xs ys hx.1 hy)

  pub All-mono {κ μ} :
      (P : A → Type κ) (Q : A → Type μ)
      → ((x : A) → P x → Q x)
      → (xs : List A) → All P xs
      → All Q xs
  All-mono P Q imp [] h = tt
  All-mono P Q imp (x ∷ xs) h = (imp x h.0, All-mono P Q imp xs h.1)

  pub All-reverse {κ} : (P : A → Type κ) (xs : List A) → All P xs → All P (reverse xs)
  All-reverse P [] h = tt
  All-reverse P (x ∷ xs) h =
      rw (reverse-cons x xs) (All-append P (reverse xs) (x ∷ []) (All-reverse P xs h.1) (h.0, tt))

  pub All-zip {κ μ ν} :
      (P : A → Type κ) (Q : A → Type μ) (R : A → Type ν)
      → ((x : A) → P x → Q x → R x)
      → (xs : List A) → All P xs
      → All Q xs
      → All R xs
  All-zip P Q R both [] p q = tt
  All-zip P Q R both (x ∷ xs) p q = (both x p.0 q.0, All-zip P Q R both xs p.1 q.1)

  pub All-of_forall {κ} : (P : A → Type κ) → ((x : A) → P x) → (xs : List A) → All P xs
  All-of_forall P h [] = tt
  All-of_forall P h (x ∷ xs) = (h x, All-of_forall P h xs)

  pub All-middle {κ} :
      (P : A → Type κ) (xs : List A) (y : A) (ys : List A) → All P (xs ++ y ∷ ys) → P y
  All-middle P [] y ys h = h.0
  All-middle P (x ∷ xs) y ys h = All-middle P xs y ys h.1
