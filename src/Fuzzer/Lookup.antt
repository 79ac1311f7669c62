-- ===== src/Fuzzer/Lookup.antt =====
-- `get_proc_desc` on tables whose processes have different pids, fuzzer.c of
-- 544final/fuzzer_final/Fuzzy_v_0.5.
use cs.Common.{
  ℕ, zero, suc, ◌+◌, ◌≤◌, ◌<◌, ◌≡◌, inl, inr, refl, true, false, arith, ◌==◌, Bool-cases, Option,
  none, some,
}
use cs.Fuzzer.Processes.{
  ppd_size, ProcDesc, FileName, Message, Table, find_proc, get_proc_desc, write_log, log_at, log_,
}

find_proc-absent :
    (n i pid : ℕ) (ppd : ℕ → ProcDesc)
    → ((j : ℕ) → i ≤ j → j < i + n → ((ppd j).pid == pid) ≡ false)
    → find_proc n i pid ppd ≡ none
unfolding find_proc
find_proc-absent zero i pid ppd h = refl
find_proc-absent (suc n) i pid ppd h =
    rw (h i (omega arith) (omega arith))
      (find_proc-absent n (i + 1) pid ppd (λ j lo hi. h j (omega arith) (omega arith)))

find_proc-at :
    (n i pid k : ℕ) (ppd : ℕ → ProcDesc)
    → i ≤ k
    → k < i + n
    → ((ppd k).pid == pid) ≡ true
    → ((j : ℕ) → i ≤ j → j < k → ((ppd j).pid == pid) ≡ false)
    → find_proc n i pid ppd ≡ some k
unfolding find_proc
find_proc-at zero i pid k ppd lo hi e h = absurd (omega arith)
find_proc-at (suc n) i pid k ppd lo hi e h = elim (Bool-cases (i == k)) [
  | inl here ↦ let same : i ≡ k = ground arith in rw (same, e) refl
  | inr later ↦ rw (h i (omega arith) (ground arith)) (
      find_proc-at n (i + 1) pid k ppd (ground arith) (omega arith) e
        (λ j low high. h j (omega arith) high))
]

pub get_proc_desc-absent :
    (pid : ℕ) (t : Table)
    → ((j : ℕ) → j < ppd_size → ((t.ppd j).pid == pid) ≡ false)
    → get_proc_desc pid t ≡ none
unfolding get_proc_desc
get_proc_desc-absent pid t h = find_proc-absent ppd_size 0 pid t.ppd (λ j lo hi. h j (omega arith))

pub get_proc_desc-at :
    (pid k : ℕ) (t : Table)
    → k < ppd_size
    → (t.ppd k).pid ≡ pid
    → ((j : ℕ) → j < ppd_size → (j == k) ≡ false → ((t.ppd j).pid == pid) ≡ false)
    → get_proc_desc pid t ≡ some k
unfolding get_proc_desc
get_proc_desc-at pid k t small e h =
    find_proc-at ppd_size 0 pid k t.ppd (omega arith) (omega arith) (ground (arith, e))
      (λ j lo hi. h j (omega arith) (ground arith))

-- A log leaves all but the logs.
pub record OnlyLogs (t t' : Table) : Type 0 where
  pub ppd : t'.ppd ≡ t.ppd
  pub cnt : t'.proc_desc_cnt ≡ t.proc_desc_cnt
  pub files : t'.pid_files ≡ t.pid_files

write_log-OnlyLogs : (f : Option FileName) (m : Message) (t : Table) → OnlyLogs t (write_log f m t)
unfolding write_log
write_log-OnlyLogs none m t = record { ppd = refl; cnt = refl; files = refl }
write_log-OnlyLogs (some f) m t = record { ppd = refl; cnt = refl; files = refl }

log_at-OnlyLogs : (o : Option ℕ) (m : Message) (t : Table) → OnlyLogs t (log_at o m t).1
unfolding log_at
log_at-OnlyLogs none m t = record { ppd = refl; cnt = refl; files = refl }
log_at-OnlyLogs (some i) m t = write_log-OnlyLogs (t.ppd i).flog m t

pub log_-OnlyLogs : (pid : ℕ) (m : Message) (t : Table) → OnlyLogs t (log_ pid m t).1
unfolding log_
log_-OnlyLogs pid m t = log_at-OnlyLogs (get_proc_desc pid t) m t
