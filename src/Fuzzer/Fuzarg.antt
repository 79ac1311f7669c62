-- ===== src/Fuzzer/Fuzarg.antt =====
-- What `sandbox_syscall_fuzarg` does for each type of argument, sandbox.c of
-- 544final/fuzzer_final/Fuzzy_v_0.5.
use cs.Common.{
  ◌*◌, ℤ, pos, negsuc, ℕ, ◌+◌, ◌%◌, ◌≤◌, ◌<◌, ◌≡◌, refl, ap, Bool, true, false, arith, ltb,
  if◌then◌else◌, none, List, [], ◌∷◌, length, All, update,
}
use cs.Fuzzer.Spec.{
  FuzType, arg_end, arg_null, arg_ptr_rand, arg_uint_fd_ropen, arg_uint_fd_wopen,
  arg_uint_fd_closed, arg_buf_generic, arg_buf_randfill, arg_ulong_bufsize, arg_longint_offset,
  arg_path_file_exist, arg_path_file_nonexist, arg_path_dir_exist, arg_open_flags, arg_open_mode,
  arg_dev_type, arg_file_perm_mode, arg_uid, arg_gid, arg_timespec, arg_utimbuf, arg_lseek_mode,
  arg_execve_argv, arg_execve_envp,
}
use cs.Fuzzer.Sandbox.{
  Run, ok, fault, bind, region_size, max_len_path, is_dir, is_file, end_path, Entry, Outside, Box,
  strcpy, region, next, drew, callback_get_path, walk_path, path_loop, new_path, old_path, gen_path,
}
use cs.Fuzzer.Args.{poke, pointer_of, two_fields, store_arg, fuzarg_case, sandbox_syscall_fuzarg}
use cs.Fuzzer.Bounds.{
  path_max, Draws, Outer, Kept, Kept-refl, Kept-then, Kept-if, put-Kept, update-Kept,
  strcpy-outside, drew-Kept, put_some, randfill-Kept, fd_closed_arg-Kept, fd_wopen_arg-Kept,
  fd_ropen_arg-Kept, open_flags-Kept, lseek_mode-Kept, execve_argv-Kept, path_loop-Kept,
}

-- The types whose value goes into the region itself.
unfoldable pub stays_inside : FuzType → Bool
stays_inside arg_timespec = false
stays_inside arg_utimbuf = false
stays_inside t = true

if-fits :
    (t : Bool) (p q : Bool × List ℕ)
    → length p.1 < path_max
    → length q.1 < path_max
    → length (if t then p else q).1 < path_max
if-fits true p q h k = h
if-fits false p q h k = k

module _ (o : Outside) (d : Draws o) where
  callback_get_path-fits :
      (t : FuzType) (r : ℕ) (e : Entry) (tmp : List ℕ)
      → length e.fpath < path_max
      → length tmp < path_max
      → length (callback_get_path o t r e tmp).1 < path_max
  unfolding callback_get_path
  callback_get_path-fits arg_path_dir_exist r e tmp h k =
      if-fits (ltb (r % 50) 2) _ _ (if-fits (is_dir e.tflag) (true, e.fpath) (false, tmp) h k) k
  callback_get_path-fits arg_path_file_exist r e tmp h k =
      if-fits (ltb (r % 50) 2) _ _ (if-fits (is_file e.tflag) (true, e.fpath) (false, tmp) h k) k
  callback_get_path-fits t r e tmp h k = k

  module _ (y a : ℕ) (out : Outer y a) where
    walk_path-Kept :
        (t : FuzType) (es : List Entry) (b : Box)
        → All (λ e. length e.fpath < path_max) es
        → Kept y b (walk_path o t es b)
    unfolding walk_path
    walk_path-Kept t [] b h = Kept-refl
    walk_path-Kept t (e ∷ es) b h =
        let called = callback_get_path o t (next o b 0) e b.callback_path_tmp in
        let here : Kept y b (record (drew o b 1) { callback_path_tmp = called.1 }) = record {
          byte = refl;
          pool = refl;
          last = refl;
          fits = callback_get_path-fits t (next o b 0) e b.callback_path_tmp h.0;
        } in
        Kept-if called.0 _ _ here (Kept-then here (walk_path-Kept t es _ h.1))

    -- The call ends, and an address outside the region sees nothing of it.
    abbrev Done : Box → Run (ℤ × Box) → Type 0
    Done b r = (v : ℤ) × (b' : Box) × (r ≡ ok (v, b')) × Kept y b b'

    new_path-run :
        (fuel : ℕ) (b : Box) (end : ℕ) (b' : Box)
        → path_loop o fuel
            (next o b 0 % max_len_path)
            1
            a
            (record (drew o b 1) { mem = update b.mem a 47 })
          ≡ ok (end, b')
        → new_path o fuel a b ≡ ok (pos 0, record b' { mem = update b'.mem (a + end) 0 })
    unfolding new_path end_path
    new_path-run fuel b end b' e = ap (end_path o a) e

    new_path-Done :
        (fuel : ℕ) (b : Box) → max_len_path * d.window ≤ fuel → Done b (new_path o fuel a b)
    new_path-Done fuel b enough =
        let (g, near, filled) = d.chunks (b.drawn + 1) in
        let (end, b', e, bound, k) =
          path_loop-Kept o y a out d fuel 1023 g (next o b 0 % max_len_path) 1
            (record (drew o b 1) { mem = update b.mem a 47 }) filled (omega arith) (omega arith)
            (omega arith) (omega arith) (omega (arith, near, enough)) in
        (
          pos 0,
          record b' { mem = update b'.mem (a + end) 0 },
          new_path-run fuel b end b' e,
          Kept-then (drew-Kept o y a out 1 b) (
              Kept-then (update-Kept y a a 47 (drew o b 1) out (omega arith) (omega arith))
                (Kept-then k (update-Kept y a (a + end) 0 b' out (omega arith) (omega arith)))),
        )

    old_path-Done :
        (t : FuzType) (b : Box) → length b.callback_path_tmp < path_max → Done b (old_path o t a b)
    unfolding old_path
    old_path-Done t b short =
        let b1 = walk_path o t o.tree b in
        let k = walk_path-Kept t o.tree b d.short in
        let fits = k.fits short in
        let copied : Kept y b1 (record b1 { mem = strcpy b1.mem a b1.callback_path_tmp }) = record {
          byte = strcpy-outside b1.mem a b1.callback_path_tmp y (omega (arith, out, fits));
          pool = refl;
          last = refl;
          fits = λ h. h;
        } in
        (pos 0, _, refl, Kept-then k copied)

    value_of : (n v k : ℕ) (b : Box) → n ≤ 8 → Done b (store_arg o a n v k b)
    unfolding store_arg
    value_of n v k b small = (pos 0, _, refl, put_some o y a out n v k b small)

    fuzarg_case-Done :
        (fuel : ℕ) (t : FuzType) (b : Box)
        → stays_inside t ≡ true
        → max_len_path * d.window ≤ fuel
        → length b.callback_path_tmp < path_max
        → Done b (fuzarg_case o fuel t a b)
    unfolding fuzarg_case gen_path stays_inside
    fuzarg_case-Done fuel arg_end b s enough short = (pos 0, b, refl, Kept-refl)
    fuzarg_case-Done fuel arg_null b s enough short = value_of 8 0 0 b (omega arith)
    fuzarg_case-Done fuel arg_ptr_rand b s enough short = value_of 8 _ 1 b (omega arith)
    fuzarg_case-Done fuel arg_uint_fd_ropen b s enough short =
        (pos 0, _, refl, fd_ropen_arg-Kept o y a out b)
    fuzarg_case-Done fuel arg_uint_fd_wopen b s enough short =
        (pos 0, _, refl, fd_wopen_arg-Kept o y a out b)
    fuzarg_case-Done fuel arg_uint_fd_closed b s enough short =
        (pos 0, _, refl, fd_closed_arg-Kept o y a out b)
    fuzarg_case-Done fuel arg_buf_generic b s enough short = value_of 8 a 0 b (omega arith)
    fuzarg_case-Done fuel arg_buf_randfill b s enough short = (
      pos 0,
      _,
      refl,
      Kept-then (put-Kept y a a 8 a b out (omega arith) (omega arith))
          (randfill-Kept o y a out a region_size _ (omega arith) (omega arith)),
    )
    fuzarg_case-Done fuel arg_ulong_bufsize b s enough short = value_of 8 _ 1 b (omega arith)
    fuzarg_case-Done fuel arg_longint_offset b s enough short = value_of 8 _ 2 b (omega arith)
    fuzarg_case-Done fuel arg_path_file_exist b s enough short =
        old_path-Done arg_path_file_exist b short
    fuzarg_case-Done fuel arg_path_file_nonexist b s enough short = new_path-Done fuel b enough
    fuzarg_case-Done fuel arg_path_dir_exist b s enough short =
        old_path-Done arg_path_dir_exist b short
    fuzarg_case-Done fuel arg_open_flags b s enough short =
        (pos 0, _, refl, open_flags-Kept o y a out b)
    fuzarg_case-Done fuel arg_open_mode b s enough short = value_of 4 _ 1 b (omega arith)
    fuzarg_case-Done fuel arg_dev_type b s enough short = value_of 8 _ 2 b (omega arith)
    fuzarg_case-Done fuel arg_file_perm_mode b s enough short = value_of 4 _ 1 b (omega arith)
    fuzarg_case-Done fuel arg_uid b s enough short = value_of 4 _ 2 b (omega arith)
    fuzarg_case-Done fuel arg_gid b s enough short = value_of 4 _ 2 b (omega arith)
    fuzarg_case-Done fuel arg_timespec b s enough short = absurd (cc s)
    fuzarg_case-Done fuel arg_utimbuf b s enough short = absurd (cc s)
    fuzarg_case-Done fuel arg_lseek_mode b s enough short =
        (pos 0, _, refl, lseek_mode-Kept o y a out b)
    fuzarg_case-Done fuel arg_execve_argv b s enough short =
        (pos 0, _, refl, execve_argv-Kept o y a out b)
    fuzarg_case-Done fuel arg_execve_envp b s enough short = (negsuc 0, b, refl, Kept-refl)

-- For every type of argument but a `timespec` and a `utimbuf`, where paths fit in a buffer of
-- PATH_MAX bytes and among any `window` values of `rand()` in a row one is not a multiple of 128:
-- `sandbox_syscall_fuzarg` ends, the loop of a random path within 1024 steps for each value of the
-- window. It writes no byte outside its region, leaves the pool of
-- descriptors as it is, and `last_fd_used` is NULL then.
pub fuzarg_lem :
    (o : Outside) (fuel argno : ℕ) (t : FuzType) (b : Box) (y : ℕ)
    → (d : Draws o) → stays_inside t ≡ true
    → max_len_path * d.window ≤ fuel
    → length b.callback_path_tmp < path_max
    → Outer y (region o argno)
    → (v : ℤ) × (b' : Box) × (sandbox_syscall_fuzarg o fuel argno t b ≡ ok (v, b'))
      × (b'.mem y ≡ b.mem y)
      × (b'.fd_pool ≡ b.fd_pool)
      × (b'.last_fd_used ≡ none)
      × (length b'.callback_path_tmp < path_max)
unfolding sandbox_syscall_fuzarg
fuzarg_lem o fuel argno t b y d inside enough short out =
    let (v, b', e, k) =
      fuzarg_case-Done o d y (region o argno) out fuel t (record b { last_fd_used = none }) inside
        enough short in
    (v, b', e, k.byte, k.pool, k.last, k.fits short)

-- The pages at both ends of the address space cannot be written.
unfoldable pub AreUnmapped : Outside → Type 0
AreUnmapped o = (c : ℕ) → o.mapped (pointer_of c) ≡ false

poke-fault : (o : Outside) (p v : ℕ) (b : Box) → o.mapped p ≡ false → poke o p v b ≡ fault
unfolding poke
poke-fault o p v b h = rw h refl

two_fields-fault :
    (o : Outside) (a v w : ℕ) (b : Box) → AreUnmapped o → two_fields o a v w b ≡ fault
unfolding two_fields AreUnmapped bind
two_fields-fault o a v w b h =
    ap
      (λ (r : Run Box).
        bind r (λ b1. bind (poke o (pointer_of (b.mem a) + 8) w b1) (λ b2. ok (pos 0, b2))))
      (poke-fault o (pointer_of (b.mem a)) v b (h (b.mem a)))

-- For a `timespec` and a `utimbuf` it always ends with a signal, where no address made of one
-- byte can be written: the code takes the first byte of the region for the pointer, not the region.
pub fuzarg-fault :
    (o : Outside) (fuel argno : ℕ) (t : FuzType) (b : Box)
    → AreUnmapped o
    → stays_inside t ≡ false
    → sandbox_syscall_fuzarg o fuel argno t b ≡ fault
unfolding sandbox_syscall_fuzarg fuzarg_case stays_inside
fuzarg-fault o fuel argno arg_timespec b h e = two_fields-fault o _ _ _ _ h
fuzarg-fault o fuel argno arg_utimbuf b h e = two_fields-fault o _ _ _ _ h
fuzarg-fault o fuel argno t b h e = absurd (cc e)
