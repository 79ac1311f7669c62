-- ===== src/Fuzzer/Spec.antt =====
-- The table of system calls, syscall_def.h and syscall_def.c of
-- 544final/fuzzer_final/Fuzzy_v_0.5. The numbers `SYS_*` come from the C library: an argument.
use cs.Common.{
  ℤ, pos, negsuc, ℕ, zero, suc, ◌≡◌, refl, sym, false, arith, ◌==◌, if◌then◌else◌, Option, none,
  some, List, [], ◌∷◌, get_elem?, All,
}

-- `FUZ_ARG_*`
pub data FuzType : Type 0 where
  arg_end arg_null arg_ptr_rand arg_uint_fd_ropen arg_uint_fd_wopen arg_uint_fd_closed : FuzType
  arg_buf_generic arg_buf_randfill arg_ulong_bufsize arg_longint_offset : FuzType
  arg_path_file_exist arg_path_file_nonexist arg_path_dir_exist arg_open_flags arg_open_mode :
      FuzType
  arg_dev_type arg_file_perm_mode arg_uid arg_gid arg_timespec arg_utimbuf arg_lseek_mode : FuzType
  arg_execve_argv arg_execve_envp : FuzType

-- The calls of the table, by name.
pub data Call : Type 0 where
  sys_read sys_write sys_open sys_close sys_creat sys_link sys_execve sys_chdir sys_time : Call
  sys_mknod sys_chmod sys_lchown sys_lseek sys_nanosleep sys_utime : Call

-- `scall_desc`; each list of `arg_type` goes up to its first `FUZ_ARG_END`.
pub record ScallDesc : Type 0 where
  pub scid : ℕ
  pub name : Call
  pub argnum : ℕ
  pub arg_type : List (List FuzType)

abbrev fds : List FuzType
fds = arg_uint_fd_ropen ∷ arg_uint_fd_wopen ∷ arg_uint_fd_closed ∷ arg_end ∷ []

abbrev paths : List FuzType
paths = arg_path_file_exist ∷ arg_path_file_nonexist ∷ arg_path_dir_exist ∷ arg_end ∷ []

abbrev buffers : List FuzType
buffers = arg_buf_generic ∷ arg_null ∷ arg_end ∷ []

abbrev unused : List FuzType
unused = arg_end ∷ []

abbrev one : FuzType → List FuzType
one t = t ∷ arg_end ∷ []

abbrev two : (t u : FuzType) → List FuzType
two t u = t ∷ u ∷ arg_end ∷ []

-- The arguments of a call: `argnum` and `arg_type`.
unfoldable pub signature : Call → ℕ × List (List FuzType)
signature sys_read = (3, fds ∷ buffers ∷ one arg_ulong_bufsize ∷ [])
signature sys_write = (
  3,
  fds ∷ (arg_buf_generic ∷ arg_null ∷ arg_buf_randfill ∷ arg_end ∷ []) ∷ one arg_ulong_bufsize ∷ [],
)
signature sys_open = (3, paths ∷ one arg_open_flags ∷ one arg_open_mode ∷ [])
signature sys_close = (1, fds ∷ unused ∷ unused ∷ [])
signature sys_creat = (2, paths ∷ one arg_open_mode ∷ unused ∷ [])
signature sys_link = (2, paths ∷ paths ∷ unused ∷ [])
signature sys_execve = (
  3,
  (arg_path_file_exist ∷ arg_path_file_nonexist ∷ arg_path_dir_exist ∷ arg_null ∷ arg_end ∷ [])
      ∷ two arg_execve_argv arg_null
      ∷ one arg_null
      ∷ [],
)
signature sys_chdir = (1, paths ∷ unused ∷ unused ∷ [])
signature sys_time = (1, buffers ∷ unused ∷ unused ∷ [])
signature sys_mknod = (3, paths ∷ one arg_file_perm_mode ∷ one arg_dev_type ∷ [])
signature sys_chmod = (2, paths ∷ one arg_file_perm_mode ∷ unused ∷ [])
signature sys_lchown = (3, paths ∷ two arg_uid arg_gid ∷ two arg_uid arg_gid ∷ [])
signature sys_lseek = (3, fds ∷ one arg_longint_offset ∷ one arg_lseek_mode ∷ [])
signature sys_nanosleep = (2, one arg_timespec ∷ two arg_timespec arg_null ∷ unused ∷ [])
signature sys_utime = (2, paths ∷ one arg_utimbuf ∷ unused ∷ [])

-- The calls in the order of the table.
abbrev pub calls : List Call
calls =
    sys_read ∷ sys_write ∷ sys_open ∷ sys_close ∷ sys_creat ∷ sys_link ∷ sys_execve ∷ sys_chdir
    ∷ sys_time ∷ sys_mknod ∷ sys_chmod ∷ sys_lchown ∷ sys_lseek ∷ sys_nanosleep ∷ sys_utime ∷ []

unfoldable pub desc : (Call → ℕ) → Call → ScallDesc
unfolding signature
desc sys c = record { scid = sys c; name = c; argnum = (signature c).0; arg_type = (signature c).1 }

unfoldable pub descs : (Call → ℕ) → List Call → List ScallDesc
unfolding desc
descs sys [] = []
descs sys (c ∷ cs') = desc sys c ∷ descs sys cs'

-- `fuzzer_call_spec_list` up to `SYSCALL_NUM`, without the entry that ends it.
abbrev pub fuzzer_call_spec_list : (Call → ℕ) → List ScallDesc
fuzzer_call_spec_list sys = descs sys calls

-- The loop of `get_scall_desc`
unfoldable pub find_scall : List ScallDesc → (scid : ℕ) → Option ScallDesc
find_scall [] n = none
find_scall (d ∷ ds) n = let rest = find_scall ds n in if d.scid == n then some d else rest

unfoldable pub get_scall_desc : (Call → ℕ) → ℤ → Option ScallDesc
unfolding find_scall
get_scall_desc sys (negsuc n) = none
get_scall_desc sys (pos n) = find_scall (fuzzer_call_spec_list sys) n

-- No two calls of the list have the same number.
abbrev pub AreDistinct : (Call → ℕ) → List Call → Type 0
AreDistinct sys [] = Unit
AreDistinct sys (c ∷ cs') = All (λ d. (sys c == sys d) ≡ false) cs' × AreDistinct sys cs'

All-get :
    {A : Type 0} (P : A → Type 0) (xs : List A) (i : ℕ) (x : A)
    → All P xs
    → get_elem? xs i ≡ some x
    → P x
All-get P [] i x h e = absurd (cc e)
All-get P (y ∷ ys) zero x h e = let same : y ≡ x = cc e in rw (sym same) h.0
All-get P (y ∷ ys) (suc i) x h e = All-get P ys i x h.1 e

find_scall-at :
    (sys : Call → ℕ) (cs' : List Call) (i : ℕ) (c : Call)
    → AreDistinct sys cs'
    → get_elem? cs' i ≡ some c
    → find_scall (descs sys cs') (sys c) ≡ some (desc sys c)
unfolding find_scall descs desc
find_scall-at sys [] i c h e = absurd (cc e)
find_scall-at sys (d ∷ cs') zero c h e = let same : d ≡ c = cc e in rw same (ground arith)
find_scall-at sys (d ∷ cs') (suc i) c h e =
    rw (All-get (λ d'. (sys d == sys d') ≡ false) cs' i c h.0 e) (find_scall-at sys cs' i c h.1 e)

find_scall-absent :
    (sys : Call → ℕ) (cs' : List Call) (n : ℕ)
    → All (λ c. (sys c == n) ≡ false) cs'
    → find_scall (descs sys cs') n ≡ none
unfolding find_scall descs desc
find_scall-absent sys [] n h = refl
find_scall-absent sys (d ∷ cs') n h = rw h.0 (find_scall-absent sys cs' n h.1)

-- The place of a call in the table.
place : Call → ℕ
place sys_read = 0
place sys_write = 1
place sys_open = 2
place sys_close = 3
place sys_creat = 4
place sys_link = 5
place sys_execve = 6
place sys_chdir = 7
place sys_time = 8
place sys_mknod = 9
place sys_chmod = 10
place sys_lchown = 11
place sys_lseek = 12
place sys_nanosleep = 13
place sys_utime = 14

calls-place : (c : Call) → get_elem? calls (place c) ≡ some c
unfolding place
calls-place sys_read = refl
calls-place sys_write = refl
calls-place sys_open = refl
calls-place sys_close = refl
calls-place sys_creat = refl
calls-place sys_link = refl
calls-place sys_execve = refl
calls-place sys_chdir = refl
calls-place sys_time = refl
calls-place sys_mknod = refl
calls-place sys_chmod = refl
calls-place sys_lchown = refl
calls-place sys_lseek = refl
calls-place sys_nanosleep = refl
calls-place sys_utime = refl

pub get_scall_desc-at :
    (sys : Call → ℕ) (c : Call)
    → AreDistinct sys calls
    → get_scall_desc sys (pos (sys c)) ≡ some (desc sys c)
unfolding get_scall_desc
get_scall_desc-at sys c h = find_scall-at sys calls (place c) c h (calls-place c)

-- Where the calls of the table have different numbers, `get_scall_desc` finds each call by its
-- number, and nothing for any other number.
get_scall_desc_lem :
    (sys : Call → ℕ) (c : Call) (other : ℕ)
    → AreDistinct sys calls
    → All (λ d. (sys d == other) ≡ false) calls
    → (get_scall_desc sys (pos (sys c)) ≡ some (desc sys c))
      × (get_scall_desc sys (pos other) ≡ none)
      × (get_scall_desc sys (negsuc other) ≡ none)
unfolding get_scall_desc
get_scall_desc_lem sys c other h out =
    (get_scall_desc-at sys c h, find_scall-absent sys calls other out, refl)
