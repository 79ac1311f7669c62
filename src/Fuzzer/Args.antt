-- ===== src/Fuzzer/Args.antt =====
-- `sandbox_syscall_fuzarg`, sandbox.c of 544final/fuzzer_final/Fuzzy_v_0.5. The log is left out.
use cs.Common.{
  ℤ, pos, negsuc, ℕ, zero, suc, ◌+◌, ◌-◌, ◌*◌, ◌/◌, ◌%◌, ◌^◌, ltb, ◌==◌, if◌then◌else◌, none,
  update,
}
use cs.Fuzzer.Spec.{
  FuzType, arg_end, arg_null, arg_ptr_rand, arg_uint_fd_ropen, arg_uint_fd_wopen,
  arg_uint_fd_closed, arg_buf_generic, arg_buf_randfill, arg_ulong_bufsize, arg_longint_offset,
  arg_path_file_exist, arg_path_file_nonexist, arg_path_dir_exist, arg_open_flags, arg_open_mode,
  arg_dev_type, arg_file_perm_mode, arg_uid, arg_gid, arg_timespec, arg_utimbuf, arg_lseek_mode,
  arg_execve_argv, arg_execve_envp,
}
use cs.Fuzzer.Sandbox.{
  Run, ok, fault, bind, region_size, Outside, Box, put, rrand, region, next, drew,
  helper_gen_fuz_str, gen_path,
}

-- `i |= r` for `O_RDONLY`, `O_WRONLY` and `O_RDWR`, which are 0, 1 and 2.
unfoldable pub with_flag : (i r : ℕ) → ℕ
with_flag zero r = r
with_flag (suc zero) r = if r % 2 == 0 then r + 1 else r
with_flag (suc (suc i)) r = if r / 2 % 2 == 0 then r + 2 else r

-- `(long int)(r << 16) + s`, with `r << 16` an `int`.
unfoldable pub long_of : (r s : ℕ) → ℕ
long_of r s =
    let i = r * 65536 % 2 ^ 32 in
    let l = if ltb i (2 ^ 31) then i else i + (2 ^ 64 - 2 ^ 32) in (l + s) % 2 ^ 64

-- A `char` as a pointer: the sign is kept.
unfoldable pub pointer_of : (c : ℕ) → ℕ
pointer_of c = let v = c % 256 in if ltb v 128 then v else v + (2 ^ 64 - 256)

module _ (o : Outside) where
  -- A write of 8 bytes through a pointer.
  unfoldable pub poke : (a v : ℕ) → Box → Run Box
  poke a v b = if o.mapped a then ok (record b { mem = put b.mem a 8 v }) else fault

  -- The loop of `FUZ_ARG_BUF_RANDFILL`
  unfoldable pub randfill : (n a : ℕ) → Box → Box
  randfill zero a b = b
  randfill (suc n) a b =
      randfill n (a + 1) (record (drew o b 1) { mem = update b.mem a (next o b 0 % 256) })

  -- The three cases of file descriptors, the later ones first.
  unfoldable pub fd_arg : (a min max : ℕ) → Box → Box
  unfolding rrand
  fd_arg a min max b = record (drew o b 1) {
    mem = put b.mem a 4 (b.fd_pool (rrand (next o b 0) min max)).fd;
  }

  unfoldable pub fd_closed_arg : (a : ℕ) → Box → Box
  unfolding fd_arg
  fd_closed_arg a b = fd_arg a 100 110 b

  unfoldable pub fd_wopen_arg : (a : ℕ) → Box → Box
  unfolding fd_closed_arg
  fd_wopen_arg a b = fd_closed_arg a (fd_arg a 50 100 b)

  unfoldable pub fd_ropen_arg : (a : ℕ) → Box → Box
  unfolding fd_wopen_arg
  fd_ropen_arg a b = fd_wopen_arg a (fd_arg a 0 50 b)

  -- `FUZ_ARG_OPEN_FLAGS`
  unfoldable pub open_flags : (a : ℕ) → Box → Box
  unfolding with_flag
  open_flags a b =
      if next o b 0 % 2 == 1
      then record (drew o b 2) { mem = put b.mem a 4 (with_flag 0 (next o b 1)) }
      else if next o b 1 % 2 == 1
      then record (drew o b 3) { mem = put b.mem a 4 (with_flag 1 (next o b 2)) }
      else record (drew o b 3) { mem = put b.mem a 4 (with_flag 2 (next o b 2)) }

  -- `FUZ_ARG_LSEEK_MODE`; `SEEK_SET`, `SEEK_CUR` and `SEEK_END` are 0, 1 and 2.
  unfoldable pub lseek_mode : (a : ℕ) → Box → Box
  lseek_mode a b =
      if next o b 0 % 2 == 1
      then record (drew o b 1) { mem = put b.mem a 4 0 }
      else if next o b 1 % 2 == 1
      then record (drew o b 2) { mem = put b.mem a 4 1 }
      else if next o b 2 % 2 == 1
      then record (drew o b 3) { mem = put b.mem a 4 2 }
      else record (drew o b 4) { mem = put b.mem a 4 (next o b 3) }

  -- Two fields of 8 bytes, through the pointer made of the first byte at `a`.
  unfoldable pub two_fields : (a v w : ℕ) → Box → Run (ℤ × Box)
  unfolding poke pointer_of bind
  two_fields a v w b =
      bind (poke (pointer_of (b.mem a)) v b)
        (λ b1. bind (poke (pointer_of (b.mem a) + 8) w b1) (λ b2. ok (pos 0, b2)))

  -- `FUZ_ARG_EXECVE_ARGV`: four pointers, and two strings of 512 bytes.
  unfoldable pub execve_argv : (a : ℕ) → Box → Box
  execve_argv a b =
      let m =
        put (put (put (put b.mem a 8 o.sandbox) (a + 8) 8 (a + 10000)) (a + 16) 8 (a + 20000))
          (a + 24) 8 0 in
      let b1 = helper_gen_fuz_str o (a + 10000) 512 (record b { mem = m }) in
      let b2 : Box = record b1 { mem = update b1.mem (a + 10512) 0 } in
      let b3 = helper_gen_fuz_str o (a + 20000) 512 b2 in
      record b3 { mem = update b3.mem (a + 20512) 0 }

  -- The cases of the switch that store one value: its bytes, and the calls of `rand()`.
  unfoldable pub store_arg : (a n v draws : ℕ) → Box → Run (ℤ × Box)
  store_arg a n v draws b = ok (pos 0, record (drew o b draws) { mem = put b.mem a n v })

  -- The switch of `sandbox_syscall_fuzarg`, for the region at `a`.
  unfoldable pub fuzarg_case : (fuel : ℕ) → FuzType → (a : ℕ) → Box → Run (ℤ × Box)
  unfolding store_arg
  fuzarg_case fuel arg_end a b = ok (pos 0, b)
  fuzarg_case fuel arg_null a b = store_arg a 8 0 0 b
  fuzarg_case fuel arg_buf_generic a b = store_arg a 8 a 0 b
  fuzarg_case fuel arg_ptr_rand a b = store_arg a 8 (next o b 0) 1 b
  fuzarg_case fuel arg_buf_randfill a b =
      ok (pos 0, randfill region_size a (record b { mem = put b.mem a 8 a }))
  fuzarg_case fuel arg_ulong_bufsize a b = store_arg a 8 (rrand (next o b 0) 0 40960) 1 b
  fuzarg_case fuel arg_uint_fd_ropen a b = ok (pos 0, fd_ropen_arg a b)
  fuzarg_case fuel arg_uint_fd_wopen a b = ok (pos 0, fd_wopen_arg a b)
  fuzarg_case fuel arg_uint_fd_closed a b = ok (pos 0, fd_closed_arg a b)
  fuzarg_case fuel arg_path_file_exist a b = gen_path o fuel arg_path_file_exist a b
  fuzarg_case fuel arg_path_file_nonexist a b = gen_path o fuel arg_path_file_nonexist a b
  fuzarg_case fuel arg_path_dir_exist a b = gen_path o fuel arg_path_dir_exist a b
  fuzarg_case fuel arg_open_flags a b = ok (pos 0, open_flags a b)
  fuzarg_case fuel arg_open_mode a b = store_arg a 4 (next o b 0) 1 b
  fuzarg_case fuel arg_file_perm_mode a b = store_arg a 4 (next o b 0) 1 b
  fuzarg_case fuel arg_dev_type a b = store_arg a 8 (o.makedev (next o b 0) (next o b 1)) 2 b
  fuzarg_case fuel arg_uid a b = store_arg a 4 ((next o b 0 * 2 + next o b 1) % 2 ^ 32) 2 b
  fuzarg_case fuel arg_gid a b = store_arg a 4 ((next o b 0 * 2 + next o b 1) % 2 ^ 32) 2 b
  fuzarg_case fuel arg_longint_offset a b = store_arg a 8 (long_of (next o b 0) (next o b 1)) 2 b
  fuzarg_case fuel arg_lseek_mode a b = ok (pos 0, lseek_mode a b)
  fuzarg_case fuel arg_timespec a b =
      two_fields a (next o b 0 % 3) (next o b 1 * 65536 + next o b 2) (drew o b 3)
  fuzarg_case fuel arg_utimbuf a b =
      two_fields a (long_of (next o b 0) (next o b 1)) (long_of (next o b 2) (next o b 3))
        (drew o b 4)
  fuzarg_case fuel arg_execve_argv a b = ok (pos 0, execve_argv a b)
  fuzarg_case fuel arg_execve_envp a b = ok (negsuc 0, b)

  -- `sandbox_syscall_fuzarg`
  unfoldable pub sandbox_syscall_fuzarg : (fuel argno : ℕ) → FuzType → Box → Run (ℤ × Box)
  unfolding fuzarg_case
  sandbox_syscall_fuzarg fuel argno t b =
      fuzarg_case fuel t (region o argno) (record b { last_fd_used = none })
