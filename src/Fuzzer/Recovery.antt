-- ===== src/Fuzzer/Recovery.antt =====
-- How the main process replaces a worker that died, fuzzer.c of
-- 544final/fuzzer_final/Fuzzy_v_0.5.
use cs.Common.{
  ℕ, zero, suc, ◌+◌, ◌-◌, ◌≤◌, ◌<◌, ◌≡◌, refl, sym, ap, ◌∙◌, true, false, arith, ◌==◌, Option, some,
  List, [], ◌∷◌, update,
}
use cs.Fuzzer.Processes.{
  type_worker, ppd_size, ProcDesc, crashed, reforking, Table, same_type, get_proc_desc, fill_desc,
  at, replace_desc, register_new_process, log_, mark_died, on_found, sigchld_handler, prefix_of,
}
use cs.Fuzzer.Main.{running, continue, needs_fork, refork, after_refork, refork_pass}
use cs.Fuzzer.Lookup.{get_proc_desc-at, OnlyLogs, log_-OnlyLogs}

-- The record `k` is that of a worker with pid `p`, no other record has this pid, and no other worker
-- died.
pub record Serves (t : Table) (k p : ℕ) : Type 0 where
  pub small : k < t.proc_desc_cnt
  pub count : t.proc_desc_cnt ≤ ppd_size
  pub pid : (t.ppd k).pid ≡ p
  pub real : 0 < p
  pub worker : (t.ppd k).ptype ≡ type_worker
  pub only : (j : ℕ) → j < ppd_size → (j == k) ≡ false → ((t.ppd j).pid == p) ≡ false
  pub alive : (j : ℕ) → j < ppd_size → (j == k) ≡ false → needs_fork (t.ppd j) ≡ false

-- The record of a new worker.
abbrev pub worker_desc : (pid id : ℕ) → ProcDesc
worker_desc pid id = record {
  id = id;
  flog = some (record { prefix = type_worker; number = pid });
  pid = pid;
  ptype = type_worker;
  died = false;
}

pub update-other :
    (f : ℕ → ProcDesc) (k : ℕ) (v : ProcDesc) (j : ℕ) → (j == k) ≡ false → update f k v j ≡ f j
update-other f k v j e = rw e refl

pub update-here : (f : ℕ → ProcDesc) (k : ℕ) (v : ProcDesc) → update f k v k ≡ v
update-here f k v = let same : (k == k) ≡ true = ground arith in rw same refl

-- The table with the record marked.
unfoldable marked : Table → ℕ → Table
marked t k = record t { ppd = update t.ppd k (record (t.ppd k) { died = true }) }

sigchld_handler-run :
    (me : ℕ) (t : Table) (k p : ℕ)
    → get_proc_desc p t ≡ some k
    → sigchld_handler me (p ∷ []) t ≡ ([], mark_died k me p t)
unfolding sigchld_handler on_found
sigchld_handler-run me t k p e =
    ap (λ (o : Option ℕ). on_found o ([], t) (λ i. sigchld_handler me [] (mark_died i me p t))) e

mark_died-ppd :
    (me : ℕ) (t : Table) (k p : ℕ)
    → ((mark_died k me p t).ppd ≡ (marked t k).ppd)
      × ((mark_died k me p t).proc_desc_cnt ≡ t.proc_desc_cnt)
unfolding mark_died marked
mark_died-ppd me t k p =
    let only = log_-OnlyLogs me (crashed (t.ppd k).id p) (marked t k) in (only.ppd, only.cnt)

register-replace :
    (child id p : ℕ) (t : Table)
    → 0 < p
    → register_new_process child type_worker id p t
      ≡ replace_desc (get_proc_desc p t) child type_worker id t
unfolding register_new_process
register-replace child id zero t real = absurd (omega arith)
register-replace child id (suc p) t real = refl

refork_pass-skip :
    (n i me last : ℕ) (fork : ℕ → Option ℕ) (t : Table)
    → ((j : ℕ) → i ≤ j → j < i + n → needs_fork (t.ppd j) ≡ false)
    → refork_pass n i me last fork t ≡ running t
unfolding refork_pass
refork_pass-skip zero i me last fork t h = refl
refork_pass-skip (suc n) i me last fork t h =
    rw (h i (omega arith) (omega arith))
      (refork_pass-skip n (i + 1) me last fork t (λ j lo hi. h j (omega arith) (omega arith)))

refork_pass-here :
    (n k me last child : ℕ) (fork : ℕ → Option ℕ) (t v : Table)
    → needs_fork (t.ppd k) ≡ true
    → fork k ≡ some child
    → refork (some child) me (t.ppd k) (log_ me (reforking (t.ppd k).id last) t).1 ≡ at k v
    → refork_pass (suc n) k me last fork t ≡ refork_pass n (k + 1) me child fork v
unfolding refork_pass continue after_refork
refork_pass-here n k me last child fork t v needs forked e = rw (needs, forked, e) refl

-- The records up to `k` need nothing.
refork_pass-before :
    (d m n i k me last : ℕ) (fork : ℕ → Option ℕ) (t : Table)
    → m ≡ d + n
    → k ≡ i + d
    → ((j : ℕ) → i ≤ j → j < k → needs_fork (t.ppd j) ≡ false)
    → refork_pass m i me last fork t ≡ refork_pass n k me last fork t
unfolding refork_pass
refork_pass-before zero m n i k me last fork t e f h =
    let same : m ≡ n = omega arith in let here : k ≡ i = omega arith in rw (same, here) refl
refork_pass-before (suc d) zero n i k me last fork t e f h = absurd (omega arith)
refork_pass-before (suc d) (suc m) n i k me last fork t e f h =
    rw (h i (omega arith) (omega arith)) (
      refork_pass-before d m n (i + 1) k me last fork t (omega arith) (omega arith)
        (λ j lo hi. h j (omega arith) hi))

needs_fork-died :
    (d : ProcDesc)
    → d.ptype ≡ type_worker
    → 0 < d.pid
    → needs_fork (record d { died = true }) ≡ true
unfolding needs_fork same_type
needs_fork-died d e real = let some : (d.pid == 0) ≡ false = ground arith in rw (e, some) refl

-- A table with the record `k` of pid `p` marked, and no other.
record Dead (u : Table) (k p : ℕ) : Type 0 where
  small : k < u.proc_desc_cnt
  count : u.proc_desc_cnt ≤ ppd_size
  pid : (u.ppd k).pid ≡ p
  real : 0 < p
  needs : needs_fork (u.ppd k) ≡ true
  only : (j : ℕ) → j < ppd_size → (j == k) ≡ false → ((u.ppd j).pid == p) ≡ false
  alive : (j : ℕ) → j < ppd_size → (j == k) ≡ false → needs_fork (u.ppd j) ≡ false

refork-at :
    (u v : Table) (k p me child : ℕ)
    → Dead u k p
    → OnlyLogs u v
    → refork (some child) me (u.ppd k) v ≡ at k (fill_desc k child type_worker (u.ppd k).id v)
unfolding refork replace_desc
refork-at u v k p me child d o =
    let at_k : (v.ppd k).pid ≡ p = ap (λ (f : ℕ → ProcDesc). (f k).pid) o.ppd ∙ d.pid in
    let found =
      get_proc_desc-at p k v (omega (arith, d.small, d.count)) at_k
        (λ j lo other. ap (λ (f : ℕ → ProcDesc). (f j).pid == p) o.ppd ∙ d.only j lo other) in
    ap (λ (z : ℕ). register_new_process child type_worker (u.ppd k).id z v) d.pid
    ∙ (register-replace child (u.ppd k).id p v d.real
        ∙ ap (λ (z : Option ℕ). replace_desc z child type_worker (u.ppd k).id v) found)

-- The table behind the pass.
refilled : (u : Table) (k me last child : ℕ) → Table
refilled u k me last child =
    fill_desc k child type_worker (u.ppd k).id (log_ me (reforking (u.ppd k).id last) u).1

refilled-ppd :
    (u : Table) (k me last child : ℕ)
    → ((refilled u k me last child).ppd ≡ update u.ppd k (worker_desc child (u.ppd k).id))
      × ((refilled u k me last child).proc_desc_cnt ≡ u.proc_desc_cnt)
unfolding refilled fill_desc prefix_of
refilled-ppd u k me last child =
    let o = log_-OnlyLogs me (reforking (u.ppd k).id last) u in
    (ap (λ (f : ℕ → ProcDesc). update f k (worker_desc child (u.ppd k).id)) o.ppd, o.cnt)

refork_pass-replaces :
    (u : Table) (k p me last child : ℕ) (fork : ℕ → Option ℕ)
    → Dead u k p
    → fork k ≡ some child
    → refork_pass u.proc_desc_cnt 0 me last fork u ≡ running (refilled u k me last child)
unfolding refilled
refork_pass-replaces u k p me last child fork d forked =
    let n = u.proc_desc_cnt - k - 1 in
    let v = (log_ me (reforking (u.ppd k).id last) u).1 in
    let w = refilled u k me last child in
    let (w_ppd, _) = refilled-ppd u k me last child in
    refork_pass-before k u.proc_desc_cnt (suc n) 0 k me last fork u (omega (arith, d.small))
      (omega arith) (λ j lo hi. d.alive j (omega (arith, d.small, d.count)) (ground arith))
    ∙ (refork_pass-here n k me last child fork u w d.needs forked
          (refork-at u v k p me child d (log_-OnlyLogs me (reforking (u.ppd k).id last) u))
        ∙ refork_pass-skip n (k + 1) me child fork w (λ j lo hi.
          let other : (j == k) ≡ false = ground arith in
          ap (λ (f : ℕ → ProcDesc). needs_fork (f j)) w_ppd
          ∙ (ap needs_fork (update-other u.ppd k _ j other)
              ∙ d.alive j (omega (arith, d.small, d.count)) other)))

-- The table behind the handler is such a table.
marked-Dead :
    (t : Table) (k p me : ℕ)
    → Serves t k p
    → Dead (mark_died k me p t) k p
      × ((mark_died k me p t).ppd k ≡ record (t.ppd k) { died = true })
      × ((j : ℕ) → (j == k) ≡ false → (mark_died k me p t).ppd j ≡ t.ppd j)
unfolding marked
marked-Dead t k p me s =
    let (u_ppd, u_cnt) = mark_died-ppd me t k p in
    let u = mark_died k me p t in
    let dead : ProcDesc = record (t.ppd k) { died = true } in
    let here : u.ppd k ≡ dead = ap (λ (f : ℕ → ProcDesc). f k) u_ppd ∙ update-here t.ppd k dead in
    let there : (j : ℕ) → (j == k) ≡ false → u.ppd j ≡ t.ppd j =
      λ j other. ap (λ (f : ℕ → ProcDesc). f j) u_ppd ∙ update-other t.ppd k dead j other in
    let real : 0 < (t.ppd k).pid = omega (arith, s.pid, s.real) in
    (
      record {
        small = omega (arith, u_cnt, s.small);
        count = omega (arith, u_cnt, s.count);
        pid = ap (λ (d : ProcDesc). d.pid) here ∙ s.pid;
        real = s.real;
        needs = ap needs_fork here ∙ needs_fork-died (t.ppd k) s.worker real;
        only = λ j lo other. ap (λ (d : ProcDesc). d.pid == p) (there j other) ∙ s.only j lo other;
        alive = λ j lo other. ap needs_fork (there j other) ∙ s.alive j lo other;
      },
      here,
      there,
    )

-- When `waitpid` reports the worker of record `k`, the handler and the next pass of the main loop
-- put the new process there, under the same worker number; all other records stay, and the main
-- process goes on.
pub recovery :
    (t : Table) (k p me last child j : ℕ) (fork : ℕ → Option ℕ)
    → Serves t k p
    → fork k ≡ some child
    → (j == k) ≡ false
    → (t' : Table) × (refork_pass t.proc_desc_cnt 0 me last fork (sigchld_handler me (p ∷ []) t).1
        ≡ running t')
      × (t'.ppd k ≡ worker_desc child (t.ppd k).id)
      × (t'.ppd j ≡ t.ppd j)
      × (t'.proc_desc_cnt ≡ t.proc_desc_cnt)
recovery t k p me last child j fork s forked other =
    let found = get_proc_desc-at p k t (omega (arith, s.small, s.count)) s.pid s.only in
    let u = mark_died k me p t in
    let (dead, here, there) = marked-Dead t k p me s in
    let (w_ppd, w_cnt) = refilled-ppd u k me last child in
    let (_, u_cnt) = mark_died-ppd me t k p in
    let new = worker_desc child (u.ppd k).id in
    (
      refilled u k me last child,
      ap (λ (z : List ℕ × Table). refork_pass t.proc_desc_cnt 0 me last fork z.1)
            (sigchld_handler-run me t k p found)
          ∙ (ap (λ (n : ℕ). refork_pass n 0 me last fork u) (sym u_cnt)
              ∙ refork_pass-replaces u k p me last child fork dead forked),
      ap (λ (f : ℕ → ProcDesc). f k) w_ppd
          ∙ (update-here u.ppd k new ∙ ap (λ (d : ProcDesc). worker_desc child d.id) here),
      ap (λ (f : ℕ → ProcDesc). f j) w_ppd ∙ (update-other u.ppd k new j other ∙ there j other),
      w_cnt ∙ u_cnt,
    )
