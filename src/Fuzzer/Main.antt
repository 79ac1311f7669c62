-- ===== src/Fuzzer/Main.antt =====
-- `main`, fuzzer.c of 544final/fuzzer_final/Fuzzy_v_0.5, as the main process runs it: the start of
-- the workers and of the watchdog, and a pass of the loop that replaces workers that died.
use cs.Common.{ℕ, zero, suc, ◌+◌, Bool, false, ◌==◌, if◌then◌else◌, Option, none, some}
use cs.Fuzzer.Processes.{
  type_main, type_worker, worker_num, ProcDesc, log_started, created, reforking, wd_created, Table,
  same_type, Registered, at, known, null, register_new_process, log_, on_found, already_running,
}

-- `running`: the main process goes on; `exited`: it ends, with the result of `main`; `crashed`: it
-- writes through a null pointer; `as_worker`: it enters `worker`, which does not return.
pub data Outcome : Type 0 where
  running : Table → Outcome
  exited : (status : ℕ) → Table → Outcome
  crashed : Outcome
  as_worker : (id : ℕ) → Table → Outcome

unfoldable pub continue : Registered → (Table → Outcome) → Outcome
continue (at i t) f = f t
continue (known t) f = f t
continue null f = crashed

-- The body of the first loop, with the pid of the child.
unfoldable pub add_worker : (me child id : ℕ) → Table → Registered
unfolding log_ register_new_process
add_worker me child id t =
    register_new_process child type_worker id 0 (log_ me (created id child) t).1

-- The table before the main process is registered.
unfoldable pub announce : (me id : ℕ) → Table → Table
unfolding log_
announce me zero t = (log_ me log_started t).1
announce me (suc id) t = t

-- The first loop: `n` workers from number `id` on, with the results of `fork` by number (none: -1).
unfoldable pub spawn : (n id me : ℕ) → (fork : ℕ → Option ℕ) → Table → Outcome
unfolding continue add_worker announce register_new_process on_found
spawn zero id me fork t = running t
spawn (suc n) id me fork t = on_found (fork id) (exited 1 t) (λ child.
    continue (register_new_process me type_main id 0 (announce me id t))
      (λ t1. continue (add_worker me child id t1) (λ t2. spawn n (id + 1) me fork t2)))

-- `main` up to its loop; `wd` is the pid of the watchdog.
unfoldable pub with_watchdog : (me wd : ℕ) → Outcome → Outcome
unfolding log_
with_watchdog me wd (running t) = running (log_ me (wd_created wd) t).1
with_watchdog me wd (exited s t) = exited s t
with_watchdog me wd crashed = crashed
with_watchdog me wd (as_worker id t) = as_worker id t

unfoldable pub start : (me wd : ℕ) → (fork : ℕ → Option ℕ) → Table → Outcome
unfolding spawn with_watchdog already_running
start me wd fork t =
    if already_running t.pid_files
    then exited 1 t
    else with_watchdog me wd (spawn worker_num 0 me fork t)

-- Whether a record is one of a worker that died.
unfoldable pub needs_fork : ProcDesc → Bool
unfolding same_type
needs_fork d =
    if same_type d.ptype type_worker then (if d.pid == 0 then false else d.died) else false

-- A record of a worker that died, with the result of `fork`. On -1 the code of the child runs.
unfoldable pub refork : Option ℕ → (me : ℕ) → ProcDesc → Table → Registered
unfolding register_new_process
refork none me d t = register_new_process me type_worker d.id d.pid t
refork (some child) me d t = register_new_process child type_worker d.id d.pid t

unfoldable pub after_refork : Option ℕ → (id : ℕ) → (Table → Outcome) → Table → Outcome
after_refork none id go_on t = as_worker id t
after_refork (some child) id go_on t = go_on t

-- A pass over `n` records from `i` on; `fork i` is the result for record `i`, and `last` the pid in
-- the log, which is that of the fork before.
unfoldable pub refork_pass : (n i me last : ℕ) → (fork : ℕ → Option ℕ) → Table → Outcome
unfolding needs_fork refork after_refork continue log_
refork_pass zero i me last fork t = running t
refork_pass (suc n) i me last fork t =
    let d = t.ppd i in
    let skip = refork_pass n (i + 1) me last fork t in
    let next_last : ℕ = elim (fork i) [ some child ↦ child | none ↦ last ] in
    let done =
      continue (refork (fork i) me d (log_ me (reforking d.id last) t).1)
        (after_refork (fork i) d.id (refork_pass n (i + 1) me next_last fork)) in
    if needs_fork d then done else skip
