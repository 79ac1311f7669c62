-- ===== src/Fuzzer/ProcessTests.antt =====
-- A main process with pid 100 and workers from 101 on.
use cs.Common.{update, ℕ, zero, suc, ◌+◌, ◌<◌, ◌≡◌, refl, false, arith, ◌==◌, none, some, [], ◌∷◌}
use cs.Fuzzer.Children.{
  child_start, watchdog_start, watchdog_pass, own, own_file, IsAbsent, alive, repeat, children_lem,
}
use cs.Fuzzer.Processes.{
  type_wd, worker_log, wd_log_start, logging_started, watching, type_main, type_worker, ppd_size,
  FileName, ProcDesc, Table, same_type, get_log_stream, sigchld_handler, sighup, signal_handler,
  already_running,
}
use cs.Fuzzer.Main.{as_worker, running, needs_fork, start, refork_pass}
use cs.Fuzzer.Recovery.{Serves, worker_desc, recovery}
use cs.Fuzzer.Starting.{main_desc, AreFresh, start_lem}
use cs.Fuzzer.Leaving.{Listed, HavePrefixes, signal_handler_lem}

abbrev unused : ProcDesc
unused = record { id = 0; flog = none; pid = 0; ptype = type_main; died = false }

abbrev no_process : Table
no_process = record { ppd = λ i. unused; proc_desc_cnt = 0; pid_files = []; logs = [] }

abbrev children : ℕ → ℕ
children j = 101 + j

fresh : AreFresh 100 children
fresh = record {
  real = omega arith;
  children = λ j. omega arith;
  mine = λ j. ground arith;
  others = λ i j lt. ground arith;
}

quiet : already_running [] ≡ false
unfolding already_running
quiet = refl

start_lem_example :
    (t' : Table) × (start 100 200 (λ j. some (children j)) no_process ≡ running t')
    × (t'.proc_desc_cnt ≡ 5)
    × (t'.ppd 0 ≡ main_desc 100)
    × (t'.ppd (2 + 1) ≡ worker_desc (children 2) 2)
start_lem_example =
    start_lem 100 200 children (λ j. some (children j)) no_process 2 fresh (λ i. refl) refl
      (λ i. refl) quiet (omega arith)

abbrev crew : ℕ → ProcDesc
crew zero = main_desc 100
crew (suc zero) = worker_desc 101 0
crew (suc (suc j)) = unused

abbrev main_file : FileName
main_file = record { prefix = type_main; number = 100 }

abbrev two_processes : Table
two_processes = record {
  ppd = crew;
  proc_desc_cnt = 2;
  pid_files = main_file ∷ record { prefix = type_worker; number = 101 } ∷ [];
  logs = [];
}

only_worker : (j : ℕ) → j < ppd_size → (j == 1) ≡ false → ((crew j).pid == 101) ≡ false
only_worker zero lo e = refl
only_worker (suc zero) lo e = absurd (cc e)
only_worker (suc (suc j)) lo e = refl

none_died : (j : ℕ) → j < ppd_size → (j == 1) ≡ false → needs_fork (crew j) ≡ false
unfolding needs_fork same_type
none_died zero lo e = refl
none_died (suc zero) lo e = absurd (cc e)
none_died (suc (suc j)) lo e = refl

serves : Serves two_processes 1 101
serves = record {
  small = omega arith;
  count = omega arith;
  pid = refl;
  real = omega arith;
  worker = refl;
  only = only_worker;
  alive = none_died;
}

recovery_example :
    (t' : Table) × (refork_pass 2 0 100 200
        (λ j. some 300)
        (sigchld_handler 100 (101 ∷ []) two_processes).1
      ≡ running t')
    × (t'.ppd 1 ≡ worker_desc 300 0)
    × (t'.ppd 0 ≡ main_desc 100)
    × (t'.proc_desc_cnt ≡ 2)
recovery_example = recovery two_processes 1 101 100 200 300 0 (λ j. some 300) serves refl refl

listed : Listed two_processes 1 101
listed = record { small = omega arith; here = refl; real = omega arith; only = only_worker }

prefixed : HavePrefixes two_processes.pid_files
unfolding same_type
prefixed = (refl, (refl, tt))

worker_not_main : same_type (two_processes.ppd 1).ptype type_main ≡ false
unfolding same_type
worker_not_main = refl

signal_handler_lem_example :
    ((signal_handler 101 sighup two_processes).0 ≡ false)
    × ((signal_handler 101 sighup two_processes).1.ppd
        ≡ update two_processes.ppd 1 (record (two_processes.ppd 1) { pid = 0 }))
    × (get_log_stream 101 (signal_handler 101 sighup two_processes).1 ≡ none)
    × ((signal_handler 101 sighup two_processes).1.pid_files ≡ two_processes.pid_files)
signal_handler_lem_example =
    signal_handler_lem two_processes 1 101 sighup listed worker_not_main prefixed

new_here : IsAbsent 300 two_processes
new_here zero lt = refl
new_here (suc zero) lt = refl
new_here (suc (suc j)) lt = refl

children_lem_example :
    (child_start 300 1 two_processes
      ≡ as_worker 1 (record (own 300 type_worker 1 two_processes) {
        logs = (own_file 300 type_worker, worker_log 1 300) ∷ [];
      }))
    × ((u : Table) × (watchdog_start 300 1 two_processes ≡ running u)
        × (u ≡ record (own 300 type_wd 1 two_processes) {
          logs =
              (own_file 300 type_wd, wd_log_start) ∷ (own_file 300 type_wd, logging_started) ∷ [];
        })
        × (watchdog_pass 300 u ≡ record u {
          logs = repeat (alive u.proc_desc_cnt 0 u.ppd) (own_file 300 type_wd, watching) u.logs;
        }))
children_lem_example = children_lem 300 1 two_processes (omega arith) new_here
