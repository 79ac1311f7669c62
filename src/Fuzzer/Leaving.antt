-- ===== src/Fuzzer/Leaving.antt =====
-- How a process leaves on a signal, fuzzer.c of 544final/fuzzer_final/Fuzzy_v_0.5.
use cs.Common.{
  ℤ, pos, negsuc, ℕ, ◌<◌, ◌≡◌, inl, inr, refl, ap, ◌∙◌, Bool, true, false, arith, ◌==◌,
  if◌then◌else◌, Bool-cases, Option, none, List, [], ◌∷◌, All, update,
}
use cs.Fuzzer.Processes.{
  type_main, type_def, ppd_size, FileName, ProcDesc, Message, hangup, terminated, Table, same_type,
  same_file, prefix_of, get_proc_desc, remove, unregister_at, unregister_process, log_, stream_at,
  get_log_stream, close_log, shutdown, blank, Signal, sighup, sigterm, leave, signal_handler,
}
use cs.Fuzzer.Lookup.{get_proc_desc-absent, get_proc_desc-at, OnlyLogs, log_-OnlyLogs}

-- The record `k` is the only one with the pid.
pub record Listed (t : Table) (k pid : ℕ) : Type 0 where
  pub small : k < ppd_size
  pub here : (t.ppd k).pid ≡ pid
  pub real : 0 < pid
  pub only : (j : ℕ) → j < ppd_size → (j == k) ≡ false → ((t.ppd j).pid == pid) ≡ false

-- No file has a name without a prefix.
abbrev pub HavePrefixes : List FileName → Type 0
HavePrefixes fs = All (λ f. same_type type_def f.prefix ≡ false) fs

remove-nothing :
    (fs : List FileName) (pid : ℕ)
    → HavePrefixes fs
    → remove (record { prefix = prefix_of type_def; number = pid }) fs ≡ (false, fs)
unfolding remove same_file prefix_of
remove-nothing [] pid h = refl
remove-nothing (f ∷ fs) pid h = rw (h.0, remove-nothing fs pid h.1) refl

OnlyLogs-then : {t u v : Table} → OnlyLogs t u → OnlyLogs u v → OnlyLogs t v
OnlyLogs-then a b = record { ppd = b.ppd ∙ a.ppd; cnt = b.cnt ∙ a.cnt; files = b.files ∙ a.files }

close_log-OnlyLogs : (pid : ℕ) (t : Table) → OnlyLogs t (close_log pid t)
unfolding close_log
close_log-OnlyLogs pid t =
    OnlyLogs-then (log_-OnlyLogs pid shutdown t) (log_-OnlyLogs pid blank (log_ pid shutdown t).1)

unregister-run :
    (t u : Table) (k pid : ℕ)
    → Listed t k pid
    → OnlyLogs t u
    → HavePrefixes t.pid_files
    → unregister_process pid type_def u
      ≡ (negsuc 0, record u { ppd = update u.ppd k (record (u.ppd k) { pid = 0 }) })
unfolding unregister_process unregister_at
unregister-run t u k pid l o h =
    let at_k : (u.ppd k).pid ≡ pid = ap (λ (f : ℕ → ProcDesc). (f k).pid) o.ppd ∙ l.here in
    let found =
      get_proc_desc-at pid k u l.small at_k
        (λ j lo other. ap (λ (f : ℕ → ProcDesc). (f j).pid == pid) o.ppd ∙ l.only j lo other) in
    let names : HavePrefixes u.pid_files = rw o.files h in
    let cleared : ℕ → ProcDesc = update u.ppd k (record (u.ppd k) { pid = 0 }) in
    ap (λ (z : Option ℕ). unregister_at z pid type_def u) found
    ∙ ap
        (λ (g : Bool × List FileName).
          (if g.0 then pos 0 else negsuc 0, record u { ppd = cleared; pid_files = g.1 }))
        (remove-nothing u.pid_files pid names)

-- Whether a signal ends the process.
abbrev pub ends_process : Signal → Bool
ends_process sighup = false
ends_process sigterm = true

-- The table that a signal leaves.
leave_lem :
    (t : Table) (k pid : ℕ) (m : Message)
    → Listed t k pid
    → HavePrefixes t.pid_files
    → ((leave pid m t).ppd ≡ update t.ppd k (record (t.ppd k) { pid = 0 }))
      × (get_log_stream pid (leave pid m t) ≡ none)
      × ((leave pid m t).pid_files ≡ t.pid_files)
unfolding leave get_log_stream stream_at
leave_lem t k pid m l h =
    let u = close_log pid (log_ pid m t).1 in
    let o = OnlyLogs-then (log_-OnlyLogs pid m t) (close_log-OnlyLogs pid (log_ pid m t).1) in
    let w : Table = record u { ppd = update u.ppd k (record (u.ppd k) { pid = 0 }) } in
    let run = ap (λ (z : ℤ × Table). z.1) (unregister-run t u k pid l o h) in
    let gone = get_proc_desc-absent pid w (λ j lo. elim (Bool-cases (j == k)) [
      | inl same ↦ let r = l.real in ground (arith, same, r)
      | inr other ↦ rw other (ap (λ (f : ℕ → ProcDesc). (f j).pid == pid) o.ppd ∙ l.only j lo other)
    ]) in
    (
      ap (λ (z : Table). z.ppd) run
          ∙ ap (λ (f : ℕ → ProcDesc). update f k (record (f k) { pid = 0 })) o.ppd,
      ap (λ (z : Table). stream_at (get_proc_desc pid z) z) run
          ∙ ap (λ (z : Option ℕ). stream_at z w) gone,
      ap (λ (z : Table). z.pid_files) run ∙ o.files,
    )

-- On a signal a listed worker or watchdog, the processes that install the handler, is taken off its
-- copy of the table: its record has no pid any more and the others stay, so that there is no log to
-- write to, a null stream for a worker that goes on after SIGHUP. But no file of pid/ is removed, as
-- the code asks for a name without a prefix, and no file has such a name. SIGTERM ends the process
-- and SIGHUP does not.
pub signal_handler_lem :
    (t : Table) (k pid : ℕ) (sig : Signal)
    → Listed t k pid
    → same_type (t.ppd k).ptype type_main ≡ false
    → HavePrefixes t.pid_files
    → ((signal_handler pid sig t).0 ≡ ends_process sig)
      × ((signal_handler pid sig t).1.ppd ≡ update t.ppd k (record (t.ppd k) { pid = 0 }))
      × (get_log_stream pid (signal_handler pid sig t).1 ≡ none)
      × ((signal_handler pid sig t).1.pid_files ≡ t.pid_files)
unfolding signal_handler
signal_handler_lem t k pid sighup l child h =
    let (ppd, log, files) = leave_lem t k pid hangup l h in (refl, ppd, log, files)
signal_handler_lem t k pid sigterm l child h =
    let (ppd, log, files) = leave_lem t k pid terminated l h in (refl, ppd, log, files)
