-- ===== src/Fuzzer/Processes.antt =====
-- The table of processes, fuzzer.c of 544final/fuzzer_final/Fuzzy_v_0.5, as the main process sees
-- it. Files can be opened; what is printed to the terminal is left out.
use cs.Common.{
  ℤ, pos, negsuc, ℕ, zero, suc, ◌+◌, Bool, true, false, ◌==◌, if◌then◌else◌, Option, none, some,
  List, [], ◌∷◌, update,
}

-- `PROC_TYPE_*`
pub data ProcType : Type 0 where
  type_def type_main type_wd type_worker type_shell : ProcType

-- `WORKER_NUM`, `PPD_SIZE`
abbrev pub worker_num : ℕ
worker_num = 4

abbrev pub ppd_size : ℕ
ppd_size = worker_num + 2

-- A file of pid/ or log/ by the type in front of its name, and the number.
pub record FileName : Type 0 where
  pub prefix : ProcType
  pub number : ℕ

-- `proc_desc`; `flog` is the name of the log file.
pub record ProcDesc : Type 0 where
  pub id : ℕ
  pub flog : Option FileName
  pub pid : ℕ
  pub ptype : ProcType
  pub died : Bool

pub data Message : Type 0 where
  log_started hangup terminated shutdown blank : Message
  created crashed reforking : (id pid : ℕ) → Message
  wd_created : (pid : ℕ) → Message
  worker_log : (id pid : ℕ) → Message
  logging_started wd_log_start watching : Message

-- `ppd` by index (from 6 on, what lies behind the array), `proc_desc_cnt`, the files in pid/, and the
-- lines written to the logs, the last first.
pub record Table : Type 0 where
  pub ppd : ℕ → ProcDesc
  pub proc_desc_cnt : ℕ
  pub pid_files : List FileName
  pub logs : List (FileName × Message)

-- The prefix of a file name: only three types have one.
unfoldable pub prefix_of : ProcType → ProcType
prefix_of type_main = type_main
prefix_of type_wd = type_wd
prefix_of type_worker = type_worker
prefix_of t = type_def

unfoldable pub same_type : ProcType → ProcType → Bool
same_type type_def type_def = true
same_type type_main type_main = true
same_type type_wd type_wd = true
same_type type_worker type_worker = true
same_type type_shell type_shell = true
same_type t u = false

unfoldable pub same_file : FileName → FileName → Bool
unfolding same_type
same_file f g = if same_type f.prefix g.prefix then f.number == g.number else false

-- `get_proc_desc`: the loop over `n` indices from `i` on.
unfoldable pub find_proc : (n i pid : ℕ) → (ℕ → ProcDesc) → Option ℕ
find_proc zero i pid ppd = none
find_proc (suc n) i pid ppd =
    let rest = find_proc n (i + 1) pid ppd in if (ppd i).pid == pid then some i else rest

unfoldable pub get_proc_desc : (pid : ℕ) → Table → Option ℕ
unfolding find_proc
get_proc_desc pid t = find_proc ppd_size 0 pid t.ppd

-- `register_new_process` behind the choice of the record `i`.
unfoldable pub fill_desc : (i pid : ℕ) → ProcType → (id : ℕ) → Table → Table
unfolding prefix_of
fill_desc i pid ptype id t =
    let name : FileName = record { prefix = prefix_of ptype; number = pid } in
    record t {
      ppd =
          update t.ppd i
            (record { id = id; flog = some name; pid = pid; ptype = ptype; died = false });
      pid_files = name ∷ t.pid_files;
    }

-- The outcome of a registration: `null` is the write through a null pointer.
pub data Registered : Type 0 where
  at : (i : ℕ) → Table → Registered
  known : Table → Registered
  null : Registered

unfoldable pub replace_desc : Option ℕ → (pid : ℕ) → ProcType → (id : ℕ) → Table → Registered
unfolding fill_desc
replace_desc none pid ptype id t = null
replace_desc (some i) pid ptype id t = at i (fill_desc i pid ptype id t)

unfoldable pub new_desc : Option ℕ → (pid : ℕ) → ProcType → (id : ℕ) → Table → Registered
unfolding fill_desc
new_desc (some i) pid ptype id t = known t
new_desc none pid ptype id t =
    let i = t.proc_desc_cnt in at i (fill_desc i pid ptype id (record t { proc_desc_cnt = i + 1 }))

-- `register_new_process`
unfoldable pub register_new_process :
    (pid : ℕ) → ProcType → (id replace_died_pid : ℕ) → Table → Registered
unfolding replace_desc new_desc get_proc_desc
register_new_process pid ptype id zero t = new_desc (get_proc_desc pid t) pid ptype id t
register_new_process pid ptype id (suc r) t = replace_desc (get_proc_desc (suc r) t) pid ptype id t

-- The table behind a registration, where it does not matter whether the process was known.
unfoldable pub table_of : Registered → Option Table
table_of (at i t) = some t
table_of (known t) = some t
table_of null = none

-- `remove`: whether the file was there, and the files that are left.
unfoldable pub remove : FileName → List FileName → Bool × List FileName
unfolding same_file
remove f [] = (false, [])
remove f (g ∷ gs) =
    let rest = remove f gs in if same_file f g then (true, rest.1) else (rest.0, g ∷ rest.1)

-- `unregister_process`
unfoldable pub unregister_at : Option ℕ → (pid : ℕ) → ProcType → Table → ℤ × Table
unfolding remove prefix_of
unregister_at none pid ptype t = (negsuc 0, t)
unregister_at (some i) pid ptype t =
    let gone = remove (record { prefix = prefix_of ptype; number = pid }) t.pid_files in
    (
      if gone.0 then pos 0 else negsuc 0,
      record t { ppd = update t.ppd i (record (t.ppd i) { pid = 0 }); pid_files = gone.1 },
    )

unfoldable pub unregister_process : (pid : ℕ) → ProcType → Table → ℤ × Table
unfolding unregister_at
unregister_process pid ptype t = unregister_at (get_proc_desc pid t) pid ptype t

-- `log_`; a log that is not open takes nothing.
unfoldable pub write_log : Option FileName → Message → Table → Table
write_log none m t = t
write_log (some f) m t = record t { logs = (f, m) ∷ t.logs }

unfoldable pub log_at : Option ℕ → Message → Table → ℤ × Table
unfolding write_log
log_at none m t = (negsuc 0, t)
log_at (some i) m t = (pos 0, write_log (t.ppd i).flog m t)

unfoldable pub log_ : (pid : ℕ) → Message → Table → ℤ × Table
unfolding log_at get_proc_desc
log_ pid m t = log_at (get_proc_desc pid t) m t

-- `get_log_stream`
unfoldable pub stream_at : Option ℕ → Table → Option FileName
stream_at none t = none
stream_at (some i) t = (t.ppd i).flog

unfoldable pub get_log_stream : (pid : ℕ) → Table → Option FileName
unfolding stream_at get_proc_desc
get_log_stream pid t = stream_at (get_proc_desc pid t) t

-- `close_log`
unfoldable pub close_log : (pid : ℕ) → Table → Table
unfolding log_
close_log pid t = (log_ pid blank (log_ pid shutdown t).1).1

-- The signals of `signal_handler`, and whether the process ends.
pub data Signal : Type 0 where
  sighup sigterm : Signal

unfoldable pub leave : (pid : ℕ) → Message → Table → Table
unfolding log_ close_log unregister_process
leave pid m t = (unregister_process pid type_def (close_log pid (log_ pid m t).1)).1

unfoldable pub signal_handler : (pid : ℕ) → Signal → Table → Bool × Table
unfolding leave
signal_handler pid sighup t = (false, leave pid hangup t)
signal_handler pid sigterm t = (true, leave pid terminated t)

-- `SIGCHLD_handler` on the pids that `waitpid` gives: the pids that are left, and the table. The log
-- is that of the main process, `me`.
unfoldable pub mark_died : (i me pid : ℕ) → Table → Table
unfolding log_
mark_died i me pid t =
    let marked : Table = record t { ppd = update t.ppd i (record (t.ppd i) { died = true }) } in
    (log_ me (crashed (t.ppd i).id pid) marked).1

unfoldable pub on_found : {A : Type 0} → Option ℕ → A → (ℕ → A) → A
on_found none a f = a
on_found (some i) a f = f i

unfoldable pub sigchld_handler : (me : ℕ) → List ℕ → Table → List ℕ × Table
unfolding mark_died get_proc_desc on_found
sigchld_handler me [] t = ([], t)
sigchld_handler me (p ∷ ps) t =
    on_found (get_proc_desc p t) (ps, t) (λ i. sigchld_handler me ps (mark_died i me p t))

-- The check at the start of `main`: a file whose name starts with `main_`.
unfoldable pub already_running : List FileName → Bool
unfolding same_type
already_running [] = false
already_running (f ∷ fs) =
    let rest = already_running fs in if same_type f.prefix type_main then true else rest
