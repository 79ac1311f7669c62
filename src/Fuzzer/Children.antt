-- ===== src/Fuzzer/Children.antt =====
-- What the children of the main process do, fuzzer.c of 544final/fuzzer_final/Fuzzy_v_0.5: a worker
-- up to its loop, and the watchdog, each in its own copy of the table.
use cs.Common.{
  update, ℕ, zero, suc, ◌+◌, ◌<◌, ◌≡◌, inl, inr, refl, ap, ◌∙◌, false, arith, ◌==◌, if◌then◌else◌,
  Bool-cases, Option, none, some, List, ◌∷◌,
}
use cs.Fuzzer.Processes.{
  ProcType, type_worker, type_wd, ppd_size, ProcDesc, FileName, Message, worker_log,
  logging_started, wd_log_start, watching, Table, get_proc_desc, fill_desc, prefix_of, Registered,
  at, new_desc, register_new_process, write_log, log_at, log_, stream_at, get_log_stream,
}
use cs.Fuzzer.Main.{Outcome, running, crashed, as_worker, continue}
use cs.Fuzzer.Lookup.{get_proc_desc-at, get_proc_desc-absent}

-- `worker` up to its loop: the line goes to the stream that `get_log_stream` gives, which may be
-- null.
unfoldable pub first_line : Option FileName → (me id : ℕ) → Table → Outcome
unfolding write_log
first_line none me id t = crashed
first_line (some f) me id t = as_worker id (write_log (some f) (worker_log id me) t)

unfoldable pub worker_start : (me id : ℕ) → Table → Outcome
unfolding first_line get_log_stream
worker_start me id t = first_line (get_log_stream me t) me id t

-- A child of the first loop of `main`.
unfoldable pub child_start : (me id : ℕ) → Table → Outcome
unfolding continue worker_start register_new_process
child_start me id t = continue (register_new_process me type_worker id 0 t) (worker_start me id)

-- The watchdog up to its loop.
unfoldable pub watchdog_start : (me id : ℕ) → Table → Outcome
unfolding continue log_ register_new_process
watchdog_start me id t =
    continue (register_new_process me type_wd id 0 t)
      (λ t1. running (log_ me wd_log_start (log_ me logging_started t1).1).1)

-- A pass of its loop over `n` records from `i` on.
unfoldable pub watch_pass : (n i me : ℕ) → Table → Table
unfolding log_
watch_pass zero i me t = t
watch_pass (suc n) i me t =
    watch_pass n (i + 1) me (if (t.ppd i).pid == 0 then t else (log_ me watching t).1)

unfoldable pub watchdog_pass : (me : ℕ) → Table → Table
unfolding watch_pass
watchdog_pass me t = watch_pass t.proc_desc_cnt 0 me t

-- Process `me` has record `i`, with an open log.
record Has (me i : ℕ) (f : FileName) (t : Table) : Type 0 where
  found : get_proc_desc me t ≡ some i
  stream : (t.ppd i).flog ≡ some f

log_-Has :
    (me i : ℕ) (f : FileName) (m : Message) (t : Table)
    → Has me i f t
    → (log_ me m t).1 ≡ record t { logs = (f, m) ∷ t.logs }
unfolding log_ log_at write_log
log_-Has me i f m t h = rw (h.found, h.stream) refl

logged-Has :
    (me i : ℕ) (f : FileName) (logs : List (FileName × Message)) (t : Table)
    → Has me i f t
    → Has me i f (record t { logs = logs })
unfolding get_proc_desc
logged-Has me i f logs t h = record { found = h.found; stream = h.stream }

abbrev pub own_file : (me : ℕ) → ProcType → FileName
own_file me ptype = record { prefix = ptype; number = me }

-- The table with the process in a new record, and with its pid file.
abbrev pub own : (me : ℕ) → ProcType → (id : ℕ) → Table → Table
own me ptype id t = record t {
  ppd =
      update t.ppd t.proc_desc_cnt (record {
        id = id;
        flog = some (own_file me ptype);
        pid = me;
        ptype = ptype;
        died = false;
      });
  proc_desc_cnt = t.proc_desc_cnt + 1;
  pid_files = own_file me ptype ∷ t.pid_files;
}

-- No record of the table is that of the process.
abbrev pub IsAbsent : (me : ℕ) → Table → Type 0
IsAbsent me t = (j : ℕ) → j < ppd_size → ((t.ppd j).pid == me) ≡ false

module _ (me id : ℕ) (ptype : ProcType) (t : Table) (small : t.proc_desc_cnt < ppd_size)
    (absent : IsAbsent me t) (named : prefix_of ptype ≡ ptype) where
  fill-own :
      fill_desc t.proc_desc_cnt me ptype id (record t { proc_desc_cnt = t.proc_desc_cnt + 1 })
      ≡ own me ptype id t
  unfolding fill_desc
  fill-own = rw named refl

  register-own : register_new_process me ptype id 0 t ≡ at t.proc_desc_cnt (own me ptype id t)
  unfolding register_new_process new_desc
  register-own =
      ap (λ (z : Option ℕ). new_desc z me ptype id t) (get_proc_desc-absent me t absent)
      ∙ ap (at t.proc_desc_cnt) fill-own

  own-Has : Has me t.proc_desc_cnt (own_file me ptype) (own me ptype id t)
  own-Has = record {
    found =
        get_proc_desc-at me t.proc_desc_cnt (own me ptype id t) small (ground arith)
          (λ j lt ne. rw ne (absent j lt));
    stream = ground arith;
  }

child_start-run :
    (me id : ℕ) (t t1 : Table) (i : ℕ) (f : FileName)
    → register_new_process me type_worker id 0 t ≡ at i t1
    → Has me i f t1
    → child_start me id t ≡ as_worker id (record t1 { logs = (f, worker_log id me) ∷ t1.logs })
unfolding child_start continue worker_start get_log_stream stream_at first_line write_log
child_start-run me id t t1 i f e h = rw (e, h.found, h.stream) refl

watchdog_start-run :
    (me id : ℕ) (t t1 : Table) (i : ℕ) (f : FileName)
    → register_new_process me type_wd id 0 t ≡ at i t1
    → Has me i f t1
    → watchdog_start me id t
      ≡ running (record t1 { logs = (f, wd_log_start) ∷ (f, logging_started) ∷ t1.logs })
unfolding watchdog_start continue
watchdog_start-run me id t t1 i f e h =
    let u = record t1 { logs = (f, logging_started) ∷ t1.logs } in
    let first = log_-Has me i f logging_started t1 h in
    let second = log_-Has me i f wd_log_start u (logged-Has me i f u.logs t1 h) in
    ap
      (λ (z : Registered).
        continue z (λ v. running (log_ me wd_log_start (log_ me logging_started v).1).1))
      e
    ∙ (ap (λ (v : Table). running (log_ me wd_log_start v).1) first ∙ ap running second)

-- The processes among `n` records from `i` on, and a list with a line put in front `n` times.
abbrev pub alive : (n i : ℕ) → (ℕ → ProcDesc) → ℕ
alive zero i ppd = 0
alive (suc n) i ppd = let rest = alive n (i + 1) ppd in if (ppd i).pid == 0 then rest else suc rest

abbrev pub repeat : ℕ → FileName × Message → List (FileName × Message) → List (FileName × Message)
repeat zero x ys = ys
repeat (suc n) x ys = repeat n x (x ∷ ys)

watch_pass-logs :
    (n i me k : ℕ) (f : FileName) (t : Table)
    → Has me k f t
    → watch_pass n i me t ≡ record t { logs = repeat (alive n i t.ppd) (f, watching) t.logs }
unfolding watch_pass
watch_pass-logs zero i me k f t h = refl
watch_pass-logs (suc n) i me k f t h = elim (Bool-cases ((t.ppd i).pid == 0)) [
  | inl empty ↦ rw empty (watch_pass-logs n (i + 1) me k f t h)
  | inr runs ↦
      let u = record t { logs = (f, watching) ∷ t.logs } in
      rw runs (
        ap (watch_pass n (i + 1) me) (log_-Has me k f watching t h)
        ∙ watch_pass-logs n (i + 1) me k f u (logged-Has me k f u.logs t h))
]

-- The children of the first loop of the main process and the watchdog, with a copy of its table that
-- has room for one more and no record of theirs: a worker takes the next record, makes its pid file
-- and its log, and enters its loop after one line in this log. The watchdog does the same and writes two lines; each pass of
-- its loop writes one line to its own log for each process in the table, and changes nothing
-- else.
pub children_lem :
    (me id : ℕ) (t : Table)
    → t.proc_desc_cnt < ppd_size
    → IsAbsent me t
    → (child_start me id t
        ≡ as_worker id (record (own me type_worker id t) {
          logs = (own_file me type_worker, worker_log id me) ∷ t.logs;
        }))
      × ((u : Table) × (watchdog_start me id t ≡ running u)
          × (u ≡ record (own me type_wd id t) {
            logs =
                (own_file me type_wd, wd_log_start)
                ∷ (own_file me type_wd, logging_started)
                ∷ t.logs;
          })
          × (watchdog_pass me u ≡ record u {
            logs = repeat (alive u.proc_desc_cnt 0 u.ppd) (own_file me type_wd, watching) u.logs;
          }))
unfolding watchdog_pass prefix_of
children_lem me id t small absent =
    let work = own me type_worker id t in
    let wd = own me type_wd id t in
    let h = own-Has me id type_wd t small absent refl in
    let u = record wd {
      logs = (own_file me type_wd, wd_log_start) ∷ (own_file me type_wd, logging_started) ∷ t.logs;
    } in
    (
      child_start-run me id t work t.proc_desc_cnt (own_file me type_worker)
          (register-own me id type_worker t small absent refl)
          (own-Has me id type_worker t small absent refl),
      (
        u,
        watchdog_start-run me id t wd t.proc_desc_cnt (own_file me type_wd)
            (register-own me id type_wd t small absent refl) h,
        refl,
        watch_pass-logs u.proc_desc_cnt 0 me t.proc_desc_cnt (own_file me type_wd) u
            (logged-Has me t.proc_desc_cnt (own_file me type_wd) u.logs wd h),
      ),
    )
