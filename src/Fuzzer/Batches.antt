-- ===== src/Fuzzer/Batches.antt =====
-- The batches of calls and the rounds of a worker, fuzzer.c of
-- 544final/fuzzer_final/Fuzzy_v_0.5. The pauses are left out.
use cs.Common.{
  ℤ, pos, negsuc, ℕ, zero, suc, ◌+◌, ◌*◌, ◌%◌, ◌≤◌, ◌<◌, ◌≡◌, inl, inr, refl, ap, Bool, true, false,
  Bool-cases, arith, ◌==◌, Option, none, some, List, [], ◌∷◌, ◌++◌, length, get_elem?,
}
use cs.Fuzzer.Spec.{
  Call, sys_read, sys_write, sys_open, sys_close, sys_creat, sys_link, sys_execve, sys_chdir,
  sys_time, sys_mknod, sys_chmod, sys_lchown, sys_lseek, sys_nanosleep, sys_utime, ScallDesc, desc,
  descs, fuzzer_call_spec_list, AreDistinct, calls,
}
use cs.Fuzzer.Sandbox.{
  Run, ok, fault, endless, bind, max_len_path, region_size, Outside, Box, next, drew,
}
use cs.Fuzzer.Bounds.{path_max, Draws}
use cs.Fuzzer.Fuzarg.{AreUnmapped}
use cs.Fuzzer.Calls.{sandbox_syscall_run}
use cs.Fuzzer.Rows.{survives}
use cs.Fuzzer.Supported.{sandbox_syscall_run_lem, sandbox_syscall_run-fault}

module _ (o : Outside) (sys : Call → ℕ) (fuel : ℕ) where
  -- The loop of `sc_batch_single`; `ret` is none before the first run.
  unfoldable pub run_times : (times : ℕ) → ℤ → (ret : Option ℤ) → Box → Run (Option ℤ × Box)
  unfolding bind
  run_times zero scid ret b = ok (ret, b)
  run_times (suc n) scid ret b =
      bind (sandbox_syscall_run o sys fuel scid b) (λ done. run_times n scid (some done.0) done.1)

  unfoldable pub sc_batch_single : ℤ → (times : ℕ) → Box → Run (Option ℤ × Box)
  unfolding run_times
  sc_batch_single (negsuc n) times b = ok (some (negsuc 0), b)
  sc_batch_single (pos scid) times b = run_times times (pos scid) none b

  -- The loop of `sc_batch_roundrobbin`; no number in the table is -1.
  unfoldable pub single_each : List ScallDesc → (times : ℕ) → Box → Run Box
  unfolding sc_batch_single bind
  single_each [] times b = ok b
  single_each (d ∷ ds) times b =
      bind (sc_batch_single (pos d.scid) times b) (λ done. single_each ds times done.1)

  unfoldable pub sc_batch_roundrobbin : (times : ℕ) → Box → Run Box
  unfolding single_each
  sc_batch_roundrobbin times b = single_each (fuzzer_call_spec_list sys) times b

  unfoldable pub single_some : Option ScallDesc → (times : ℕ) → Box → Run Box
  unfolding sc_batch_single bind
  single_some none times b = fault
  single_some (some d) times b = bind (sc_batch_single (pos d.scid) times b) (λ done. ok done.1)

  -- `sc_batch_random`; 15 is `SYSCALL_NUM`.
  unfoldable pub sc_batch_random : (times : ℕ) → Box → Run Box
  unfolding single_some
  sc_batch_random times b =
      single_some (get_elem? (fuzzer_call_spec_list sys) (next o b 0 % 15)) times (drew o b 1)

  -- The body of the loop of `worker`
  unfoldable pub worker_round : (id : ℕ) → Box → Run Box
  unfolding sc_batch_roundrobbin sc_batch_random
  worker_round zero b = sc_batch_roundrobbin 10 b
  worker_round (suc zero) b = sc_batch_roundrobbin 1 b
  worker_round (suc (suc zero)) b = sc_batch_random 10 b
  worker_round (suc (suc (suc zero))) b = sc_batch_random 1 b
  worker_round (suc (suc (suc (suc id)))) b = sc_batch_roundrobbin 1 b

-- Whether there is a result.
abbrev pub completes : {A : Type 0} → Run A → Bool
completes (ok x) = true
completes fault = false
completes endless = false

-- A result, if there is one, has a path that fits.
abbrev HasFit : {A : Type 0} → (A → Box) → Run A → Type 0
HasFit f (ok x) = length (f x).callback_path_tmp < path_max
HasFit f fault = Unit
HasFit f endless = Unit

bind-stops :
    {A B : Type 0} (f : A → Box) (r : Run A) (k : A → Run B)
    → HasFit f r
    → ((x : A) → length (f x).callback_path_tmp < path_max → completes (k x) ≡ false)
    → completes (bind r k) ≡ false
unfolding bind
bind-stops f (ok x) k h stops = stops x h
bind-stops f fault k h stops = refl
bind-stops f endless k h stops = refl

bind-stuck :
    {A B : Type 0} (r : Run A) (k : A → Run B) → completes r ≡ false → completes (bind r k) ≡ false
unfolding bind
bind-stuck (ok x) k e = absurd (cc e)
bind-stuck fault k e = refl
bind-stuck endless k e = refl

bind-HasFit :
    {A B : Type 0} (f : A → Box) (g : B → Box) (r : Run A) (k : A → Run B)
    → HasFit f r
    → ((x : A) → length (f x).callback_path_tmp < path_max → HasFit g (k x))
    → HasFit g (bind r k)
unfolding bind
bind-HasFit f g (ok x) k h fits = fits x h
bind-HasFit f g fault k h fits = tt
bind-HasFit f g endless k h fits = tt

-- What the runs of a worker need: numbers that differ, draws as above, unmapped ends of the address
-- space, and enough fuel.
pub record Setting (o : Outside) (sys : Call → ℕ) (fuel : ℕ) : Type 0 where
  pub differ : AreDistinct sys calls
  pub draws : Draws o
  pub unmapped : AreUnmapped o
  pub enough : max_len_path * draws.window ≤ fuel

abbrev box_of : ℤ × Box → Box
box_of z = z.1

syscall-HasFit :
    (b : Box) (r : Run (ℤ × (ℕ → ℕ)))
    → length b.callback_path_tmp < path_max
    → HasFit box_of (bind r (λ done. ok (done.0, record b { mem = done.1 })))
unfolding bind
syscall-HasFit b (ok x) h = h
syscall-HasFit b fault h = tt
syscall-HasFit b endless h = tt

module _ (o : Outside) (sys : Call → ℕ) (fuel : ℕ) (s : Setting o sys fuel) where
  run-HasFit :
      (c : Call) (b : Box)
      → length b.callback_path_tmp < path_max
      → HasFit box_of (sandbox_syscall_run o sys fuel (pos (sys c)) b)
  run-HasFit c b short = elim (Bool-cases (survives c)) [
    | inl lives ↦
        let (b', e, _, _, fits) =
          sandbox_syscall_run_lem o sys fuel c b (o.sandbox + 3 * region_size) s.differ s.draws
            lives s.enough short (inr (omega arith)) in
        rw e (syscall-HasFit b' (o.syscall (sys c) _ b'.mem) fits)
    | inr dies ↦
        let e =
          sandbox_syscall_run-fault o sys fuel c b s.differ s.draws s.unmapped dies s.enough
            short in
        rw e tt
  ]

  run_times-HasFit :
      (n : ℕ) (c : Call) (ret : Option ℤ) (b : Box)
      → length b.callback_path_tmp < path_max
      → HasFit (λ z. z.1) (run_times o sys fuel n (pos (sys c)) ret b)
  unfolding run_times
  run_times-HasFit zero c ret b short = short
  run_times-HasFit (suc n) c ret b short =
      bind-HasFit box_of (λ z. z.1) _ _ (run-HasFit c b short)
        (λ x fits. run_times-HasFit n c (some x.0) x.1 fits)

  nanosleep-stops :
      (n : ℕ) (b : Box)
      → length b.callback_path_tmp < path_max
      → completes (run_times o sys fuel (suc n) (pos (sys sys_nanosleep)) none b) ≡ false
  unfolding run_times survives bind
  nanosleep-stops n b short =
      ap
        (λ (r : Run (ℤ × Box)).
          completes (
            bind r (λ done. run_times o sys fuel n (pos (sys sys_nanosleep)) (some done.0) done.1)))
        (sandbox_syscall_run-fault o sys fuel sys_nanosleep b s.differ s.draws s.unmapped refl
          s.enough short)

  single_each-stops :
      (front back : List Call) (n : ℕ) (b : Box)
      → length b.callback_path_tmp < path_max
      → completes (single_each o sys fuel (descs sys (front ++ sys_nanosleep ∷ back)) (suc n) b)
        ≡ false
  unfolding single_each sc_batch_single descs desc
  single_each-stops [] back n b short = bind-stuck _ _ (nanosleep-stops n b short)
  single_each-stops (c ∷ front) back n b short =
      bind-stops (λ z. z.1) _ _ (run_times-HasFit (suc n) c none b short)
        (λ x fits. single_each-stops front back n x.1 fits)

  roundrobbin-stops :
      (n : ℕ) (b : Box)
      → length b.callback_path_tmp < path_max
      → completes (sc_batch_roundrobbin o sys fuel (suc n) b) ≡ false
  unfolding sc_batch_roundrobbin
  roundrobbin-stops n b short =
      single_each-stops
        (sys_read ∷ sys_write ∷ sys_open ∷ sys_close ∷ sys_creat ∷ sys_link ∷ sys_execve ∷ sys_chdir
          ∷ sys_time ∷ sys_mknod ∷ sys_chmod ∷ sys_lchown ∷ sys_lseek ∷ [])
        (sys_utime ∷ []) n b short

-- Where the numbers of the calls differ, paths fit in PATH_MAX bytes, among any `window` values of
-- `rand()` in a row one is not a multiple of 128, and no address made of one byte can be written: a worker that goes through the table, that
-- is one of any number but 2 and 3, never completes a round, whatever `syscall` does.
pub worker_round-stops :
    (o : Outside) (sys : Call → ℕ) (fuel : ℕ) (id : ℕ) (b : Box)
    → Setting o sys fuel
    → length b.callback_path_tmp < path_max
    → (id == 2) ≡ false
    → (id == 3) ≡ false
    → completes (worker_round o sys fuel id b) ≡ false
unfolding worker_round
worker_round-stops o sys fuel zero b s short two three = roundrobbin-stops o sys fuel s 9 b short
worker_round-stops o sys fuel (suc zero) b s short two three =
    roundrobbin-stops o sys fuel s 0 b short
worker_round-stops o sys fuel (suc (suc zero)) b s short two three = absurd (cc two)
worker_round-stops o sys fuel (suc (suc (suc zero))) b s short two three = absurd (cc three)
worker_round-stops o sys fuel (suc (suc (suc (suc id)))) b s short two three =
    roundrobbin-stops o sys fuel s 0 b short
