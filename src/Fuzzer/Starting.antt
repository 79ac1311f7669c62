-- ===== src/Fuzzer/Starting.antt =====
-- The start of the main process, fuzzer.c of 544final/fuzzer_final/Fuzzy_v_0.5.
use cs.Common.{
  ℕ, zero, suc, ◌+◌, ◌-◌, ◌≤◌, ◌<◌, ◌≡◌, inl, inr, refl, sym, ap, ◌∙◌, false, arith, ltb, ◌==◌,
  Bool-cases, Option, none, some, update,
}
use cs.Fuzzer.Processes.{
  type_main, type_worker, worker_num, ProcDesc, created, wd_created, log_started, Table,
  get_proc_desc, fill_desc, prefix_of, Registered, at, known, new_desc, register_new_process, log_,
  on_found, already_running,
}
use cs.Fuzzer.Main.{
  Outcome, running, exited, continue, add_worker, announce, spawn, with_watchdog, start,
}
use cs.Fuzzer.Lookup.{get_proc_desc-absent, get_proc_desc-at, log_-OnlyLogs}
use cs.Fuzzer.Recovery.{worker_desc, update-other, update-here}

abbrev pub main_desc : (me : ℕ) → ProcDesc
main_desc me = record {
  id = 0;
  flog = some (record { prefix = type_main; number = me });
  pid = me;
  ptype = type_main;
  died = false;
}

-- The pids of the main process and of its children are positive and differ.
pub record AreFresh (me : ℕ) (child : ℕ → ℕ) : Type 0 where
  pub real : 0 < me
  pub children : (j : ℕ) → 0 < child j
  pub mine : (j : ℕ) → (me == child j) ≡ false
  pub others : (i j : ℕ) → i < j → (child i == child j) ≡ false

-- The main process and `k` workers in the table, in this order.
record Crew (me : ℕ) (child : ℕ → ℕ) (k : ℕ) (t : Table) : Type 0 where
  cnt : t.proc_desc_cnt ≡ k + 1
  main : t.ppd 0 ≡ main_desc me
  work : (j : ℕ) → j < k → t.ppd (j + 1) ≡ worker_desc (child j) j
  free : (j : ℕ) → k < j → (t.ppd j).pid ≡ 0

module _ (me : ℕ) (child : ℕ → ℕ) (f : AreFresh me child) where
  work-at :
      (k j : ℕ) (t : Table)
      → Crew me child k t
      → 0 < j
      → j ≤ k
      → t.ppd j ≡ worker_desc (child (j - 1)) (j - 1)
  work-at k j t c lo hi =
      let back : j ≡ j - 1 + 1 = omega arith in ap t.ppd back ∙ c.work (j - 1) (omega arith)

  -- A pid that is not in the table yet.
  Crew-absent :
      (k pid : ℕ) (t : Table)
      → Crew me child k t
      → 0 < pid
      → (me == pid) ≡ false
      → ((j : ℕ) → j < k → (child j == pid) ≡ false)
      → (j : ℕ) → ((t.ppd j).pid == pid) ≡ false
  Crew-absent k pid t c real mine others zero = ap (λ (d : ProcDesc). d.pid == pid) c.main ∙ mine
  Crew-absent k pid t c real mine others (suc j) = elim (Bool-cases (ltb k (suc j))) [
    | inl beyond ↦ let e = c.free (suc j) (ground arith) in ground (arith, e)
    | inr inside ↦
        ap (λ (d : ProcDesc). d.pid == pid) (work-at k (suc j) t c (omega arith) (ground arith))
        ∙ others (suc j - 1) (ground arith)
  ]

  Crew-main : (k : ℕ) (t : Table) → Crew me child k t → get_proc_desc me t ≡ some 0
  Crew-main k t c =
      get_proc_desc-at me 0 t (omega arith) (ap (λ (d : ProcDesc). d.pid) c.main) (λ j lo other.
        elim (Bool-cases (ltb k j)) [
          | inl beyond ↦ let e = c.free j (ground arith) in let r = f.real in ground (arith, e, r)
          | inr inside ↦
              let worker =
                ap (λ (d : ProcDesc). d.pid) (work-at k j t c (ground arith) (ground arith)) in
              let differ = f.mine (j - 1) in ground (arith, worker, differ)
        ])

  add_worker-run :
      (k : ℕ) (t : Table)
      → get_proc_desc (child k) (log_ me (created k (child k)) t).1 ≡ none
      → add_worker me (child k) k t ≡ (
          let v = (log_ me (created k (child k)) t).1 in
          at v.proc_desc_cnt (
            fill_desc v.proc_desc_cnt
              (child k)
              type_worker
              k
              (record v { proc_desc_cnt = v.proc_desc_cnt + 1 })))
  unfolding add_worker register_new_process new_desc
  add_worker-run k t e =
      let v = (log_ me (created k (child k)) t).1 in
      ap (λ (z : Option ℕ). new_desc z (child k) type_worker k v) e

  -- The next worker is put behind the others.
  add_worker-Crew :
      (k : ℕ) (t : Table)
      → Crew me child k t
      → (i : ℕ) × (t' : Table) × (add_worker me (child k) k t ≡ at i t') × Crew me child (k + 1) t'
  unfolding fill_desc prefix_of
  add_worker-Crew k t c =
      let v = (log_ me (created k (child k)) t).1 in
      let o = log_-OnlyLogs me (created k (child k)) t in
      let here : v.proc_desc_cnt ≡ k + 1 = o.cnt ∙ c.cnt in
      let new = worker_desc (child k) k in
      let absent = get_proc_desc-absent (child k) v (λ j lo.
        ap (λ (g : ℕ → ProcDesc). (g j).pid == child k) o.ppd
        ∙ Crew-absent k (child k) t c (f.children k) (f.mine k) (λ i lt. f.others i k lt) j) in
      let other : (j : ℕ)
          → (j == v.proc_desc_cnt) ≡ false
          → update v.ppd v.proc_desc_cnt new j ≡ t.ppd j =
        λ j ne.
          update-other v.ppd v.proc_desc_cnt new j ne ∙ ap (λ (g : ℕ → ProcDesc). g j) o.ppd in
      (
        v.proc_desc_cnt,
        _,
        add_worker-run k t absent,
        record {
          cnt = omega (arith, here);
          main = other 0 (ground (arith, here)) ∙ c.main;
          work = λ j lt. elim (Bool-cases (j == k)) [
            | inl last ↦
                let same : j ≡ k = ground arith in
                let end : j + 1 ≡ v.proc_desc_cnt = omega (arith, here, same) in
                ap (update v.ppd v.proc_desc_cnt new) end
                ∙ (update-here v.ppd v.proc_desc_cnt new
                    ∙ ap (λ (z : ℕ). worker_desc (child z) z) (sym same))
            | inr before ↦ other (j + 1) (ground (arith, here)) ∙ c.work j (ground arith)
          ];
          free = λ j lt.
              ap (λ (d : ProcDesc). d.pid) (other j (ground (arith, here)))
              ∙ c.free j (omega arith);
        },
      )

  register_main-run :
      (k : ℕ) (t : Table)
      → Crew me child k t
      → (id : ℕ) → register_new_process me type_main id 0 t ≡ known t
  unfolding register_new_process new_desc
  register_main-run k t c id = ap (λ (z : Option ℕ). new_desc z me type_main id t) (Crew-main k t c)

  -- A round of the loop, whether the main process was registered before or not.
  rest_of : (n k : ℕ) → (ℕ → Option ℕ) → Registered → Outcome
  rest_of n k fork r =
      continue r (λ t1. continue (add_worker me (child k) k t1) (λ t2. spawn n (k + 1) me fork t2))

  spawn-register :
      (n k : ℕ) (fork : ℕ → Option ℕ) (t : Table)
      → fork k ≡ some (child k)
      → spawn (suc n) k me fork t
        ≡ rest_of n k fork (register_new_process me type_main k 0 (announce me k t))
  unfolding spawn rest_of on_found
  spawn-register n k fork t e =
      ap
        (λ (z : Option ℕ). on_found z (exited 1 t) (λ c.
          continue (register_new_process me type_main k 0 (announce me k t))
            (λ t1. continue (add_worker me c k t1) (λ t2. spawn n (k + 1) me fork t2))))
        e

  rest_of-known :
      (n k : ℕ) (fork : ℕ → Option ℕ) (t t' : Table) (i : ℕ)
      → add_worker me (child k) k t ≡ at i t'
      → rest_of n k fork (known t) ≡ spawn n (k + 1) me fork t'
  unfolding rest_of continue
  rest_of-known n k fork t t' i e =
      ap (λ (z : Registered). continue z (λ t2. spawn n (k + 1) me fork t2)) e

  rest_of-at :
      (n k : ℕ) (fork : ℕ → Option ℕ) (t t' : Table) (r i : ℕ)
      → add_worker me (child k) k t ≡ at i t'
      → rest_of n k fork (at r t) ≡ spawn n (k + 1) me fork t'
  unfolding rest_of continue
  rest_of-at n k fork t t' r i e =
      ap (λ (z : Registered). continue z (λ t2. spawn n (k + 1) me fork t2)) e

  spawn-Crew :
      (n k m : ℕ) (fork : ℕ → Option ℕ) (t : Table)
      → ((j : ℕ) → fork j ≡ some (child j))
      → 0 < k
      → m ≡ k + n
      → Crew me child k t
      → (t' : Table) × (spawn n k me fork t ≡ running t') × Crew me child m t'
  unfolding spawn announce
  spawn-Crew zero k m fork t forked lo e c = let same : m ≡ k = omega arith in (t, refl, rw same c)
  spawn-Crew (suc n) zero m fork t forked lo e c = absurd (omega arith)
  spawn-Crew (suc n) (suc k) m fork t forked lo e c =
      let (i, t1, add, c1) = add_worker-Crew (suc k) t c in
      let (t', run, c') =
        spawn-Crew n (suc k + 1) m fork t1 forked (omega arith) (omega arith) c1 in
      (
        t',
        spawn-register n (suc k) fork t (forked (suc k))
            ∙ (ap (rest_of n (suc k) fork) (register_main-run (suc k) t c (suc k))
                ∙ (rest_of-known n (suc k) fork t t1 i add ∙ run)),
        c',
      )

  -- The first round registers the main process in an empty table.
  first_table : Table → Table
  first_table v =
      fill_desc v.proc_desc_cnt me type_main 0 (record v { proc_desc_cnt = v.proc_desc_cnt + 1 })

  register_first :
      (v : Table)
      → v.proc_desc_cnt ≡ 0
      → ((j : ℕ) → (v.ppd j).pid ≡ 0)
      → (register_new_process me type_main 0 0 v ≡ at v.proc_desc_cnt (first_table v))
        × Crew me child 0 (first_table v)
  unfolding register_new_process new_desc first_table fill_desc prefix_of
  register_first v e free =
      let absent =
        get_proc_desc-absent me v
          (λ j lo. let z = free j in let r = f.real in ground (arith, z, r)) in
      (
        ap (λ (z : Option ℕ). new_desc z me type_main 0 v) absent,
        record {
          cnt = omega (arith, e);
          main =
              ap (update v.ppd v.proc_desc_cnt (main_desc me)) (sym e)
              ∙ update-here v.ppd v.proc_desc_cnt (main_desc me);
          work = λ j lt. absurd (omega arith);
          free = λ j lt.
              ap (λ (d : ProcDesc). d.pid)
                (update-other v.ppd v.proc_desc_cnt (main_desc me) j (ground (arith, e)))
              ∙ free j;
        },
      )

start-run :
    (me wd : ℕ) (fork : ℕ → Option ℕ) (t u : Table)
    → already_running t.pid_files ≡ false
    → spawn worker_num 0 me fork t ≡ running u
    → start me wd fork t ≡ running (log_ me (wd_created wd) u).1
unfolding start with_watchdog
start-run me wd fork t u quiet e = rw quiet (ap (with_watchdog me wd) e)

-- From an empty table, without a file of a running main process, and with forks that succeed with
-- different pids: the start reaches the main loop with five records, that of the main process, which
-- is the first, and those of the four workers in the order of their numbers.
pub start_lem :
    (me wd : ℕ) (child : ℕ → ℕ) (fork : ℕ → Option ℕ) (t : Table) (j : ℕ)
    → AreFresh me child
    → ((i : ℕ) → fork i ≡ some (child i))
    → t.proc_desc_cnt ≡ 0
    → ((i : ℕ) → (t.ppd i).pid ≡ 0)
    → already_running t.pid_files ≡ false
    → j < worker_num
    → (t' : Table) × (start me wd fork t ≡ running t')
      × (t'.proc_desc_cnt ≡ 5)
      × (t'.ppd 0 ≡ main_desc me)
      × (t'.ppd (j + 1) ≡ worker_desc (child j) j)
unfolding announce
start_lem me wd child fork t j f forked e free quiet lt =
    let v = (log_ me log_started t).1 in
    let o = log_-OnlyLogs me log_started t in
    let (reg, c0) =
      register_first me child f v (o.cnt ∙ e)
        (λ i. ap (λ (g : ℕ → ProcDesc). (g i).pid) o.ppd ∙ free i) in
    let first = first_table me child f v in
    let (i, t1, add, c1) = add_worker-Crew me child f 0 first c0 in
    let (u, run, c) = spawn-Crew me child f 3 1 4 fork t1 forked (omega arith) (omega arith) c1 in
    let last = log_-OnlyLogs me (wd_created wd) u in
    (
      (log_ me (wd_created wd) u).1,
      start-run me wd fork t u quiet (
          spawn-register me child f 3 0 fork t (forked 0)
          ∙ (ap (rest_of me child f 3 0 fork) reg
              ∙ (rest_of-at me child f 3 0 fork first t1 v.proc_desc_cnt i add ∙ run))),
      last.cnt ∙ c.cnt,
      ap (λ (g : ℕ → ProcDesc). g 0) last.ppd ∙ c.main,
      ap (λ (g : ℕ → ProcDesc). g (j + 1)) last.ppd ∙ c.work j lt,
    )
