-- ===== src/Fuzzer/Tests.antt =====
-- A process whose `rand` gives 1 and 0 in turn, with the numbers of x86-64.
use cs.Common.{
  ◌%◌, ◌==◌, inr, Bool-cases, ℤ, pos, negsuc, ℕ, ◌+◌, ◌*◌, ◌^◌, ◌<◌, ◌≡◌, inl, refl, true, false,
  arith, ltb, if◌then◌else◌, none, some, List, [], ◌∷◌, length,
}
use cs.Fuzzer.Spec.{
  arg_path_file_nonexist, Call, sys_read, sys_write, sys_open, sys_close, sys_creat, sys_link,
  sys_execve, sys_chdir, sys_time, sys_mknod, sys_chmod, sys_lchown, sys_lseek, sys_nanosleep,
  sys_utime, AreDistinct, calls,
}
use cs.Fuzzer.Sandbox.{ok, fault, bind, max_len_fname, Outside, Item, Box, ftw_f, ftw_d}
use cs.Fuzzer.Args.{pointer_of, sandbox_syscall_fuzarg}
use cs.Fuzzer.Bounds.{path_max, Draws}
use cs.Fuzzer.Fuzarg.{AreUnmapped, stays_inside, fuzarg_lem}
use cs.Fuzzer.Calls.{sandbox_syscall_run}
use cs.Fuzzer.Batches.{Setting, completes, worker_round, worker_round-stops}
use cs.Fuzzer.Rows.{survives}
use cs.Fuzzer.Supported.{regions, sandbox_syscall_run_lem, sandbox_syscall_run-fault}
use cs.Fuzzer.Pool.{Visit}

abbrev sys : Call → ℕ
sys sys_read = 0
sys sys_write = 1
sys sys_open = 2
sys sys_close = 3
sys sys_creat = 85
sys sys_link = 86
sys sys_execve = 59
sys sys_chdir = 80
sys sys_time = 201
sys sys_mknod = 133
sys sys_chmod = 90
sys sys_lchown = 94
sys sys_lseek = 8
sys sys_nanosleep = 35
sys sys_utime = 132

differ : AreDistinct sys calls
differ = (
  (
    refl,
    (
      refl,
      (
        refl,
        (refl, (refl, (refl, (refl, (refl, (refl, (refl, (refl, (refl, (refl, (refl, tt))))))))))),
      ),
    ),
  ),
  (
    (
      refl,
      (
        refl,
        (refl, (refl, (refl, (refl, (refl, (refl, (refl, (refl, (refl, (refl, (refl, tt))))))))))),
      ),
    ),
    (
      (
        refl,
        (refl, (refl, (refl, (refl, (refl, (refl, (refl, (refl, (refl, (refl, (refl, tt))))))))))),
      ),
      (
        (refl, (refl, (refl, (refl, (refl, (refl, (refl, (refl, (refl, (refl, (refl, tt))))))))))),
        (
          (refl, (refl, (refl, (refl, (refl, (refl, (refl, (refl, (refl, (refl, tt)))))))))),
          (
            (refl, (refl, (refl, (refl, (refl, (refl, (refl, (refl, (refl, tt))))))))),
            (
              (refl, (refl, (refl, (refl, (refl, (refl, (refl, (refl, tt)))))))),
              (
                (refl, (refl, (refl, (refl, (refl, (refl, (refl, tt))))))),
                (
                  (refl, (refl, (refl, (refl, (refl, (refl, tt)))))),
                  (
                    (refl, (refl, (refl, (refl, (refl, tt))))),
                    (
                      (refl, (refl, (refl, (refl, tt)))),
                      ((refl, (refl, (refl, tt))), ((refl, (refl, tt)), ((refl, tt), (tt, tt)))),
                    ),
                  ),
                ),
              ),
            ),
          ),
        ),
      ),
    ),
  ),
)

abbrev outside : Outside
outside = record {
  rand = λ i. (i + 1) % 2;
  sandbox = 1000000;
  mapped = λ a. if ltb 65535 a then ltb a (2 ^ 47) else false;
  tree = record { fpath = 46 ∷ 47 ∷ 97 ∷ []; tflag = ftw_f } ∷ [];
  makedev = λ i j. i * 256 + j;
  syscall = λ scid args m. ok (pos 0, m);
}

-- Every other value is a multiple of 128.
every_other : (i : ℕ) → (g : ℕ) × (g < 2) × ((outside.rand (i + g) % max_len_fname == 0) ≡ false)
every_other i = elim (Bool-cases (i % 2 == 0)) [
  | inl even ↦ (0, omega arith, ground arith)
  | inr odd ↦ (1, omega arith, ground arith)
]

draws : Draws outside
draws = record { short = (omega arith, tt); window = 2; chunks = every_other }

unmapped : AreUnmapped outside
unfolding AreUnmapped pointer_of
unmapped c = ground arith

abbrev start : Box
start = record {
  mem = λ a. 0;
  drawn = 0;
  fd_pool = λ i. record { fd = i + 3; mode = 0; last_scid = negsuc 0 };
  last_fd_used = none;
  callback_path_tmp = [];
}

setting : Setting outside sys 2048
unfolding draws
setting = record { differ = differ; draws = draws; unmapped = unmapped; enough = omega arith }

worker_round-stops_example : completes (worker_round outside sys 2048 0 start) ≡ false
worker_round-stops_example =
    worker_round-stops outside sys 2048 0 start setting (omega arith) refl refl

inside : stays_inside arg_path_file_nonexist ≡ true
unfolding stays_inside
inside = refl

fuzarg_lem_example :
    (v : ℤ) × (b' : Box) × (sandbox_syscall_fuzarg outside 2048 1 arg_path_file_nonexist start
      ≡ ok (v, b'))
    × (b'.mem 1000000 ≡ 0)
    × (b'.fd_pool ≡ start.fd_pool)
    × (b'.last_fd_used ≡ none)
    × (length b'.callback_path_tmp < path_max)
unfolding draws
fuzarg_lem_example =
    fuzarg_lem outside 2048 1 arg_path_file_nonexist start 1000000 draws inside (omega arith)
      (omega arith) (inl (omega arith))

reads : survives sys_read ≡ true
unfolding survives
reads = refl

ends : survives sys_utime ≡ false
unfolding survives
ends = refl

sandbox_syscall_run_lem_example :
    (b' : Box) × (sandbox_syscall_run outside sys 2048 (pos 0) start
      ≡ bind
          (outside.syscall 0 (1000000 ∷ 1040960 ∷ 1081920 ∷ []) b'.mem)
          (λ done. ok (done.0, record b' { mem = done.1 })))
    × (b'.mem 5 ≡ 0)
    × (b'.fd_pool ≡ start.fd_pool)
    × (length b'.callback_path_tmp < path_max)
unfolding regions draws
sandbox_syscall_run_lem_example =
    sandbox_syscall_run_lem outside sys 2048 sys_read start 5 differ draws reads (omega arith)
      (omega arith) (inl (omega arith))

sandbox_syscall_run-fault_example : sandbox_syscall_run outside sys 2048 (pos 132) start ≡ fault
unfolding draws
sandbox_syscall_run-fault_example =
    sandbox_syscall_run-fault outside sys 2048 sys_utime start differ draws unmapped ends
      (omega arith) (omega arith)

abbrev files : List Visit
files =
    record { tflag = ftw_d; opened = none; closes = false }
    ∷ record { tflag = ftw_f; opened = some 3; closes = true }
    ∷ record { tflag = ftw_f; opened = none; closes = false }
    ∷ []

abbrev zeros : ℕ → Item
zeros i = record { fd = 0; mode = 0; last_scid = pos 0 }
