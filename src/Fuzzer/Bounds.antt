-- ===== src/Fuzzer/Bounds.antt =====
-- The bytes that `sandbox_syscall_fuzarg` writes, sandbox.c of 544final/fuzzer_final/Fuzzy_v_0.5.
use cs.Common.{
  ◌*◌, ℕ, zero, suc, ◌+◌, ◌-◌, ◌/◌, ◌%◌, ◌≤◌, ◌<◌, ◌≡◌, ◌⊎◌, inl, inr, refl, ◌∙◌, Bool, true, false,
  ap, arith, ltb, ◌==◌, if◌then◌else◌, Bool-cases, List, [], ◌∷◌, length, All, update,
}
use cs.Fuzzer.Sandbox.{
  ok, region_size, max_len_path, max_len_fname, Outside, Box, put, strcpy, next, drew,
  helper_gen_fuz_str, path_loop,
}
use cs.Fuzzer.Args.{
  randfill, fd_arg, fd_closed_arg, fd_wopen_arg, fd_ropen_arg, open_flags, lseek_mode, execve_argv,
}

-- `PATH_MAX`
abbrev pub path_max : ℕ
path_max = 4096

-- Paths fit in `callback_path_tmp`, and among any `window` values in a row that `rand()` returns
-- there is one that is not a multiple of 128: then no more than that many chunks of a random path
-- in a row are empty.
pub record Draws (o : Outside) : Type 0 where
  pub short : All (λ e. length e.fpath < path_max) o.tree
  pub window : ℕ
  pub chunks : (i : ℕ) → (g : ℕ) × (g < window) × ((o.rand (i + g) % max_len_fname == 0) ≡ false)

pub put-outside : (m : ℕ → ℕ) (a n v y : ℕ) → (y < a) ⊎ (a + n ≤ y) → put m a n v y ≡ m y
unfolding put
put-outside m a zero v y out = refl
put-outside m a (suc n) v y out = ground (arith, put-outside m (a + 1) n (v / 256) y)

pub strcpy-outside :
    (m : ℕ → ℕ) (a : ℕ) (s : List ℕ) (y : ℕ) → (y < a) ⊎ (a + length s < y) → strcpy m a s y ≡ m y
unfolding strcpy
strcpy-outside m a [] y out = ground arith
strcpy-outside m a (c ∷ cs') y out = ground (arith, strcpy-outside m (a + 1) cs' y)

-- What an address outside the region at `a` sees of a step: its byte, the pool, `last_fd_used`, and
-- that the path at hand still fits.
pub record Kept (y : ℕ) (b b' : Box) : Type 0 where
  pub byte : b'.mem y ≡ b.mem y
  pub pool : b'.fd_pool ≡ b.fd_pool
  pub last : b'.last_fd_used ≡ b.last_fd_used
  pub fits : length b.callback_path_tmp < path_max → length b'.callback_path_tmp < path_max

pub Kept-then : {y : ℕ} {b c d : Box} → Kept y b c → Kept y c d → Kept y b d
Kept-then k l = record {
  byte = l.byte ∙ k.byte;
  pool = l.pool ∙ k.pool;
  last = l.last ∙ k.last;
  fits = λ h. l.fits (k.fits h);
}

abbrev pub Outer : (y a : ℕ) → Type 0
Outer y a = (y < a) ⊎ (a + region_size ≤ y)

-- A write of `n` bytes within the region.
pub put-Kept :
    (y a p n v : ℕ) (b : Box)
    → Outer y a
    → a ≤ p
    → p + n ≤ a + region_size
    → Kept y b (record b { mem = put b.mem p n v })
put-Kept y a p n v b out lo hi = record {
  byte = put-outside b.mem p n v y (ground (arith, out));
  pool = refl;
  last = refl;
  fits = λ h. h;
}

pub update-Kept :
    (y a p v : ℕ) (b : Box)
    → Outer y a
    → a ≤ p
    → p < a + region_size
    → Kept y b (record b { mem = update b.mem p v })
update-Kept y a p v b out lo hi = record {
  byte = ground (arith, out);
  pool = refl;
  last = refl;
  fits = λ h. h;
}

pub Kept-refl : {y : ℕ} {b : Box} → Kept y b b
Kept-refl = record { byte = refl; pool = refl; last = refl; fits = λ h. h }

pub Kept-if :
    {y : ℕ} {b : Box} (t : Bool) (c d : Box)
    → Kept y b c
    → Kept y b d
    → Kept y b (if t then c else d)
Kept-if true c d k l = k
Kept-if false c d k l = l

first_filled :
    (o : Outside) (i g : ℕ)
    → (o.rand (i + g) % max_len_fname == 0) ≡ false
    → o.rand (i + 0) % max_len_fname ≡ 0
    → 1 ≤ g
first_filled o i zero filled empty = ground arith
first_filled o i (suc g) filled empty = omega arith

module _ (o : Outside) (y a : ℕ) (out : Outer y a) where
  pub drew-Kept : (k : ℕ) (b : Box) → Kept y b (drew o b k)
  drew-Kept k b = record { byte = refl; pool = refl; last = refl; fits = λ h. h }

  helper_gen_fuz_str-Kept :
      (p n : ℕ) (b : Box) → a ≤ p → p + n ≤ a + region_size → Kept y b (helper_gen_fuz_str o p n b)
  unfolding helper_gen_fuz_str
  helper_gen_fuz_str-Kept p zero b lo hi = Kept-refl
  helper_gen_fuz_str-Kept p (suc n) b lo hi = Kept-then (drew-Kept 2 b) (
      Kept-then (update-Kept y a p _ _ out lo (omega arith))
        (helper_gen_fuz_str-Kept (p + 1) n _ (omega arith) (omega arith)))

  pub randfill-Kept :
      (p n : ℕ) (b : Box) → a ≤ p → p + n ≤ a + region_size → Kept y b (randfill o n p b)
  unfolding randfill
  randfill-Kept p zero b lo hi = Kept-refl
  randfill-Kept p (suc n) b lo hi = Kept-then (drew-Kept 1 b) (
      Kept-then (update-Kept y a p _ _ out lo (omega arith))
        (randfill-Kept (p + 1) n _ (omega arith) (omega arith)))

  pub put_some :
      (n v k : ℕ) (b : Box) → n ≤ 8 → Kept y b (record (drew o b k) { mem = put b.mem a n v })
  put_some n v k b small =
      Kept-then (drew-Kept k b) (put-Kept y a a n v (drew o b k) out (omega arith) (omega arith))

  pub put_int : (v k : ℕ) (b : Box) → Kept y b (record (drew o b k) { mem = put b.mem a 4 v })
  put_int v k b = put_some 4 v k b (omega arith)

  fd_arg-Kept : (min max : ℕ) (b : Box) → Kept y b (fd_arg o a min max b)
  unfolding fd_arg
  fd_arg-Kept min max b = put_int _ 1 b

  pub fd_closed_arg-Kept : (b : Box) → Kept y b (fd_closed_arg o a b)
  unfolding fd_closed_arg
  fd_closed_arg-Kept b = fd_arg-Kept 100 110 b

  pub fd_wopen_arg-Kept : (b : Box) → Kept y b (fd_wopen_arg o a b)
  unfolding fd_wopen_arg
  fd_wopen_arg-Kept b = Kept-then (fd_arg-Kept 50 100 b) (fd_closed_arg-Kept _)

  pub fd_ropen_arg-Kept : (b : Box) → Kept y b (fd_ropen_arg o a b)
  unfolding fd_ropen_arg
  fd_ropen_arg-Kept b = Kept-then (fd_arg-Kept 0 50 b) (fd_wopen_arg-Kept _)

  pub open_flags-Kept : (b : Box) → Kept y b (open_flags o a b)
  unfolding open_flags
  open_flags-Kept b =
      Kept-if (next o b 0 % 2 == 1) _ _ (put_int _ 2 b)
        (Kept-if (next o b 1 % 2 == 1) _ _ (put_int _ 3 b) (put_int _ 3 b))

  pub lseek_mode-Kept : (b : Box) → Kept y b (lseek_mode o a b)
  unfolding lseek_mode
  lseek_mode-Kept b = Kept-if (next o b 0 % 2 == 1) _ _ (put_int _ 1 b) (
      Kept-if (next o b 1 % 2 == 1) _ _ (put_int _ 2 b)
        (Kept-if (next o b 2 % 2 == 1) _ _ (put_int _ 3 b) (put_int _ 4 b)))

  pub execve_argv-Kept : (b : Box) → Kept y b (execve_argv o a b)
  unfolding execve_argv
  execve_argv-Kept b = Kept-then (put-Kept y a a 8 _ _ out (omega arith) (omega arith)) (
      Kept-then (put-Kept y a (a + 8) 8 _ _ out (omega arith) (omega arith)) (
        Kept-then (put-Kept y a (a + 16) 8 _ _ out (omega arith) (omega arith)) (
          Kept-then (put-Kept y a (a + 24) 8 _ _ out (omega arith) (omega arith)) (
            Kept-then (helper_gen_fuz_str-Kept (a + 10000) 512 _ (omega arith) (omega arith)) (
              Kept-then (update-Kept y a (a + 10512) 0 _ out (omega arith) (omega arith)) (
                Kept-then (helper_gen_fuz_str-Kept (a + 20000) 512 _ (omega arith) (omega arith))
                  (update-Kept y a (a + 20512) 0 _ out (omega arith) (omega arith))))))))

  -- The state behind one chunk of a random path.
  after_chunk : (cnt : ℕ) → Box → Box
  after_chunk cnt b =
      let chunk_len = next o b 0 % max_len_fname in
      let b1 = helper_gen_fuz_str o (a + cnt) chunk_len (drew o b 1) in
      record b1 { mem = update b1.mem (a + (cnt + chunk_len - 1)) 47 }

  after_chunk-Kept : (cnt : ℕ) (b : Box) → 1 ≤ cnt → cnt ≤ 1200 → Kept y b (after_chunk cnt b)
  unfolding after_chunk
  after_chunk-Kept cnt b lo hi = Kept-then (drew-Kept 1 b) (
      Kept-then
        (helper_gen_fuz_str-Kept (a + cnt) (next o b 0 % max_len_fname) _ (omega arith)
          (omega arith))
        (update-Kept y a (a + (cnt + next o b 0 % max_len_fname - 1)) 47 _ out (omega arith)
          (omega arith)))

  path_loop-step :
      (fuel len cnt : ℕ) (b : Box)
      → ltb cnt len ≡ true
      → path_loop o (suc fuel) len cnt a b
        ≡ path_loop o fuel len (cnt + next o b 0 % max_len_fname - 1 + 1) a (after_chunk cnt b)
  unfolding path_loop after_chunk
  path_loop-step fuel len cnt b more = rw more refl

  -- An empty chunk leaves the loop where it is, with one number drawn.
  after_chunk-empty :
      (cnt : ℕ) (b : Box) → next o b 0 % max_len_fname ≡ 0 → (after_chunk cnt b).drawn ≡ b.drawn + 1
  unfolding after_chunk helper_gen_fuz_str
  after_chunk-empty cnt b e =
      ap (λ (n : ℕ). (helper_gen_fuz_str o (a + cnt) n (drew o b 1)).drawn) e

  -- `n` characters are left, and the next chunk that is not empty is the one behind `g` others.
  pub path_loop-Kept :
      (d : Draws o) (fuel n g len cnt : ℕ) (b : Box)
      → (o.rand (b.drawn + g) % max_len_fname == 0) ≡ false
      → 1 ≤ cnt
      → cnt ≤ 1200
      → len ≤ max_len_path
      → len ≤ cnt + n
      → n * d.window + g < fuel
      → (end : ℕ) × (b' : Box) × (path_loop o fuel len cnt a b ≡ ok (end, b'))
        × (end ≤ 1200)
        × Kept y b b'
  unfolding path_loop
  path_loop-Kept d zero n g len cnt b filled lo hi small left enough = absurd (omega arith)
  path_loop-Kept d (suc fuel) zero g len cnt b filled lo hi small left enough =
      let done : ltb cnt len ≡ false = ground arith in (cnt, b, rw done refl, hi, Kept-refl)
  path_loop-Kept d (suc fuel) (suc n) g len cnt b filled lo hi small left enough =
      let chunk_len = next o b 0 % max_len_fname in
      let b1 = after_chunk cnt b in
      elim (Bool-cases (ltb cnt len)) [
        | inl more ↦ elim (Bool-cases (chunk_len == 0)) [
          | inl empty ↦
              let none_here : chunk_len ≡ 0 = ground arith in
              let later : 1 ≤ g = first_filled o b.drawn g filled none_here in
              let at : b1.drawn + (g - 1) ≡ b.drawn + g =
                omega (arith, after_chunk-empty cnt b none_here) in
              let (end, b', e, bound, k) =
                path_loop-Kept d fuel (suc n) (g - 1) len (cnt + chunk_len - 1 + 1) b1
                  (ap (λ (i : ℕ). o.rand i % max_len_fname == 0) at ∙ filled) (omega arith)
                  (omega arith) small (omega arith) (omega arith) in
              (
                end,
                b',
                path_loop-step fuel len cnt b more ∙ e,
                bound,
                Kept-then (after_chunk-Kept cnt b lo hi) k,
              )
          | inr some ↦
              let (g', near, filled') = d.chunks b1.drawn in
              let positive : 1 ≤ chunk_len = ground arith in
              let inside : cnt < len = ground arith in
              let (end, b', e, bound, k) =
                path_loop-Kept d fuel n g' len (cnt + chunk_len - 1 + 1) b1 filled' (omega arith)
                  (omega arith) small (omega arith) (omega (arith, near, enough)) in
              (
                end,
                b',
                path_loop-step fuel len cnt b more ∙ e,
                bound,
                Kept-then (after_chunk-Kept cnt b lo hi) k,
              )
        ]
        | inr done ↦ (cnt, b, rw done refl, hi, Kept-refl)
      ]
