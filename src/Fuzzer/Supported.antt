-- ===== src/Fuzzer/Supported.antt =====
-- Whole runs of `sandbox_syscall_run`, sandbox.c of 544final/fuzzer_final/Fuzzy_v_0.5.
use cs.Common.{
  ℤ, pos, negsuc, ℕ, zero, suc, ◌+◌, ◌*◌, ◌%◌, ◌≤◌, ◌<◌, ◌≡◌, ◌⊎◌, inl, inr, refl, ap, ◌∙◌, true,
  false, arith, ltb, ◌==◌, Option, none, some, List, [], ◌∷◌, length,
}
use cs.Fuzzer.Spec.{
  FuzType, arg_end, arg_path_file_exist, arg_path_file_nonexist, arg_path_dir_exist, arg_timespec,
  arg_utimbuf, Call, sys_nanosleep, sys_utime, ScallDesc, signature, desc, get_scall_desc,
  get_scall_desc-at, AreDistinct, calls,
}
use cs.Fuzzer.Sandbox.{
  Run, ok, fault, endless, bind, region_size, max_len_path, Outside, Box, region, next, drew,
}
use cs.Fuzzer.Args.{sandbox_syscall_fuzarg}
use cs.Fuzzer.Bounds.{path_max, Draws}
use cs.Fuzzer.Fuzarg.{stays_inside, fuzarg_lem, AreUnmapped, fuzarg-fault}
use cs.Fuzzer.Calls.{
  count_types, drawn_type, draw_type, fuzargs_loop, fuzargs_of, run_of, sandbox_syscall_fuzargs,
  call_args, update_used, update_pool, call, sandbox_syscall_run,
}
use cs.Fuzzer.Rows.{
  all_inside, is_row, are_rows, if-both, survives, signature_rows, count-get_elem?,
}

bind-same :
    {A B : Type 0} (r : Run A) (f g : A → Run B) → ((x : A) → f x ≡ g x) → bind r f ≡ bind r g
unfolding bind
bind-same (ok x) f g h = h x
bind-same fault f g h = refl
bind-same endless f g h = refl

module _ (o : Outside) (sys : Call → ℕ) where
  draw_type-inside :
      (ts : List FuzType) (b : Box)
      → is_row ts ≡ true
      → (t : FuzType) × (draw_type o sys ts b ≡ ok t) × (stays_inside t ≡ true)
  unfolding draw_type drawn_type is_row
  draw_type-inside ts b row =
      let (inside, some_type) = if-both (all_inside ts) (ltb 0 (count_types ts)) row in
      let n = count_types ts in
      let (t, e, s) = count-get_elem? ts (next o b 0 % n) (ground (arith, some_type)) inside in
      let found : (n == 0) ≡ false = ground arith in (t, rw (found, e) refl, s)

  fuzargs_loop-step :
      (fuel n i : ℕ) (ts : List FuzType) (rows : List (List FuzType)) (b : Box) (t : FuzType)
      (v : ℤ) (b' : Box)
      → draw_type o sys ts b ≡ ok t
      → sandbox_syscall_fuzarg o fuel i t (drew o b 1) ≡ ok (v, b')
      → fuzargs_loop o sys fuel (suc n) i (ts ∷ rows) b ≡ fuzargs_loop o sys fuel n (i + 1) rows b'
  unfolding fuzargs_loop bind
  fuzargs_loop-step fuel n i ts rows b t v b' e e' = rw (e, e') refl

  -- From the result of the loop over the arguments to that of the run.
  after_args : (n : ℕ) → ScallDesc → Run Box → Run (ℤ × Box)
  after_args n d r =
      let done : Run (ℤ × Box) = bind r (λ b'. ok (pos 0, b')) in
      bind done (λ z. call o sys n (call_args o sys d.argnum) z.1)

  run-loop :
      (fuel n : ℕ) (b : Box) (d : ScallDesc) (r : Run Box)
      → get_scall_desc sys (pos n) ≡ some d
      → fuzargs_loop o sys fuel d.argnum 0 d.arg_type b ≡ r
      → sandbox_syscall_run o sys fuel (pos n) b ≡ after_args n d r
  unfolding after_args sandbox_syscall_run run_of sandbox_syscall_fuzargs fuzargs_of
  run-loop fuel n b d r e loop =
      ap (λ (z : Option ScallDesc). run_of o sys fuel n z b) e
      ∙ (ap
            (λ (z : Option ScallDesc).
              bind (fuzargs_of o sys fuel z b) (λ x. call o sys n (call_args o sys d.argnum) x.1))
            e
          ∙ ap (after_args n d) loop)

  update_pool-unused :
      (n : ℕ) (r : ℤ) (c : Box) → c.last_fd_used ≡ none → update_pool o sys n r c ≡ c
  unfolding update_pool update_used
  update_pool-unused n (pos r) c e = ap (λ (u : Option ℕ). update_used o sys n u c) e
  update_pool-unused n (negsuc r) c e = refl

  call-unused :
      (scid : ℕ) (args : List ℕ) (b : Box)
      → b.last_fd_used ≡ none
      → call o sys scid (some args) b
        ≡ bind (o.syscall scid args b.mem) (λ done. ok (done.0, record b { mem = done.1 }))
  unfolding call
  call-unused scid args b e = bind-same (o.syscall scid args b.mem) _ _ (λ done.
      let kept = update_pool-unused scid done.0 (record b { mem = done.1 }) e in
      ap (λ (z : Box). ok (done.0, z)) kept)

  fuzargs_loop-ends :
      (fuel n i : ℕ) (rows : List (List FuzType)) (b : Box) (y : ℕ)
      → (d : Draws o) → are_rows n rows ≡ true
      → i + n ≤ 3
      → (b.last_fd_used ≡ none) ⊎ (0 < n)
      → max_len_path * d.window ≤ fuel
      → length b.callback_path_tmp < path_max
      → (y < o.sandbox) ⊎ (o.sandbox + 3 * region_size ≤ y)
      → (b' : Box) × (fuzargs_loop o sys fuel n i rows b ≡ ok b')
        × (b'.mem y ≡ b.mem y)
        × (b'.fd_pool ≡ b.fd_pool)
        × (b'.last_fd_used ≡ none)
        × (length b'.callback_path_tmp < path_max)
  unfolding are_rows fuzargs_loop
  fuzargs_loop-ends fuel zero i rows b y d fine few fresh enough short out =
      (b, refl, refl, refl, elim fresh [ inl e ↦ e | inr lt ↦ absurd (omega arith) ], short)
  fuzargs_loop-ends fuel (suc n) i [] b y d fine few fresh enough short out = absurd (cc fine)
  fuzargs_loop-ends fuel (suc n) i (ts ∷ rows) b y d fine few fresh enough short out =
      let (row, more) = if-both (is_row ts) (are_rows n rows) fine in
      let (t, drawn, inside) = draw_type-inside ts b row in
      let (v, b1, e, byte, pool, last, fits) =
        fuzarg_lem o fuel i t (drew o b 1) y d inside enough short (ground (arith, out)) in
      let (b', e', byte', pool', last', fits') =
        fuzargs_loop-ends fuel n (i + 1) rows b1 y d more (omega arith) (inl last) enough fits
          out in
      (
        b',
        fuzargs_loop-step fuel n i ts rows b t v b1 drawn e ∙ e',
        byte' ∙ byte,
        pool' ∙ pool,
        last',
        fits',
      )

  -- The addresses of `n` regions from `i` on.
  unfoldable pub regions : (n i : ℕ) → List ℕ
  regions zero i = []
  regions (suc n) i = region o i ∷ regions n (i + 1)

  call_args-regions : (n : ℕ) → 0 < n → n ≤ 3 → call_args o sys n ≡ some (regions n 0)
  unfolding call_args regions
  call_args-regions zero lo hi = absurd (omega arith)
  call_args-regions (suc zero) lo hi = refl
  call_args-regions (suc (suc zero)) lo hi = refl
  call_args-regions (suc (suc (suc zero))) lo hi = refl
  call_args-regions (suc (suc (suc (suc n)))) lo hi = absurd (omega arith)

  after_args-ok :
      (n : ℕ) (d : ScallDesc) (b : Box)
      → after_args n d (ok b) ≡ call o sys n (call_args o sys d.argnum) b
  unfolding after_args bind
  after_args-ok n d b = refl

  after_args-fault : (n : ℕ) (d : ScallDesc) → after_args n d fault ≡ fault
  unfolding after_args bind
  after_args-fault n d = refl

-- A run of a call without a `timespec` and a `utimbuf`, where the numbers of the calls differ, paths
-- fit in PATH_MAX bytes and among any `window` values of `rand()` in a row one is not a multiple of
-- 128: it fills the regions and reaches `syscall`, within 1024 steps for each value of the window
-- for a random path. The arguments of `syscall` are the addresses of
-- the first regions, one for each argument of the call, so that a descriptor or a number that was
-- drawn is never passed itself. Before `syscall` no byte outside the three regions changes, and
-- the pool of descriptors is as before the run, whatever `syscall` returns; the path at hand fits.
pub sandbox_syscall_run_lem :
    (o : Outside) (sys : Call → ℕ) (fuel : ℕ) (c : Call) (b : Box) (y : ℕ)
    → AreDistinct sys calls
    → (d : Draws o) → survives c ≡ true
    → max_len_path * d.window ≤ fuel
    → length b.callback_path_tmp < path_max
    → (y < o.sandbox) ⊎ (o.sandbox + 3 * region_size ≤ y)
    → (b' : Box) × (sandbox_syscall_run o sys fuel (pos (sys c)) b
        ≡ bind
            (o.syscall (sys c) (regions o sys (signature c).0 0) b'.mem)
            (λ done. ok (done.0, record b' { mem = done.1 })))
      × (b'.mem y ≡ b.mem y)
      × (b'.fd_pool ≡ b.fd_pool)
      × (length b'.callback_path_tmp < path_max)
unfolding desc
sandbox_syscall_run_lem o sys fuel c b y differ d s enough short out =
    let (rows, lo, hi) = signature_rows c s in
    let (b', e, byte, pool, last, fits) =
      fuzargs_loop-ends o sys fuel (signature c).0 0 (signature c).1 b y d rows (omega arith)
        (inr lo) enough short out in
    (
      b',
      run-loop o sys fuel (sys c) b (desc sys c) (ok b') (get_scall_desc-at sys c differ) e
          ∙ (after_args-ok o sys (sys c) (desc sys c) b'
              ∙ (ap (λ (args : Option (List ℕ)). call o sys (sys c) args b')
                    (call_args-regions o sys (signature c).0 lo hi)
                  ∙ call-unused o sys (sys c) (regions o sys (signature c).0 0) b' last)),
      byte,
      pool,
      fits,
    )

module _ (o : Outside) (sys : Call → ℕ) where
  fuzargs_loop-fault :
      (fuel n i : ℕ) (ts : List FuzType) (rows : List (List FuzType)) (b : Box) (t : FuzType)
      → draw_type o sys ts b ≡ ok t
      → sandbox_syscall_fuzarg o fuel i t (drew o b 1) ≡ fault
      → fuzargs_loop o sys fuel (suc n) i (ts ∷ rows) b ≡ fault
  unfolding fuzargs_loop bind
  fuzargs_loop-fault fuel n i ts rows b t e e' = rw (e, e') refl

  draw_type-only :
      (t : FuzType) (b : Box) → stays_inside t ≡ false → draw_type o sys (t ∷ arg_end ∷ []) b ≡ ok t
  unfolding draw_type drawn_type count_types stays_inside
  draw_type-only arg_timespec b s = let first : next o b 0 % 1 ≡ 0 = omega arith in rw first refl
  draw_type-only arg_utimbuf b s = let first : next o b 0 % 1 ≡ 0 = omega arith in rw first refl
  draw_type-only t b s = absurd (cc s)

-- A run of `nanosleep` or `utime`, where the numbers of the calls differ, paths fit in PATH_MAX
-- bytes, among any `window` values of `rand()` in a row one is not a multiple of 128, and no address
-- made of one byte can be written, ends with a signal before it reaches `syscall`.
pub sandbox_syscall_run-fault :
    (o : Outside) (sys : Call → ℕ) (fuel : ℕ) (c : Call) (b : Box)
    → AreDistinct sys calls
    → (d : Draws o) → AreUnmapped o
    → survives c ≡ false
    → max_len_path * d.window ≤ fuel
    → length b.callback_path_tmp < path_max
    → sandbox_syscall_run o sys fuel (pos (sys c)) b ≡ fault
unfolding survives desc signature stays_inside is_row all_inside count_types
sandbox_syscall_run-fault o sys fuel sys_nanosleep b differ d un s enough short =
    run-loop o sys fuel (sys sys_nanosleep) b (desc sys sys_nanosleep) fault
      (get_scall_desc-at sys sys_nanosleep differ)
      (fuzargs_loop-fault o sys fuel 1 0 _ _ b arg_timespec
        (draw_type-only o sys arg_timespec b refl)
        (fuzarg-fault o fuel 0 arg_timespec (drew o b 1) un refl))
    ∙ after_args-fault o sys (sys sys_nanosleep) (desc sys sys_nanosleep)
sandbox_syscall_run-fault o sys fuel sys_utime b differ d un s enough short =
    let y = o.sandbox + 3 * region_size in
    let (t, drawn, inside) =
      draw_type-inside o sys
        (arg_path_file_exist ∷ arg_path_file_nonexist ∷ arg_path_dir_exist ∷ arg_end ∷ []) b refl in
    let (v, b1, e, _, _, _, _) =
      fuzarg_lem o fuel 0 t (drew o b 1) y d inside enough short (inr (omega arith)) in
    let second =
      fuzargs_loop-fault o sys fuel 0 1 _ _ b1 arg_utimbuf
        (draw_type-only o sys arg_utimbuf b1 refl)
        (fuzarg-fault o fuel 1 arg_utimbuf (drew o b1 1) un refl) in
    run-loop o sys fuel (sys sys_utime) b (desc sys sys_utime) fault
      (get_scall_desc-at sys sys_utime differ)
      (fuzargs_loop-step o sys fuel 1 0 _ _ b t v b1 drawn e ∙ second)
    ∙ after_args-fault o sys (sys sys_utime) (desc sys sys_utime)
sandbox_syscall_run-fault o sys fuel c b differ d un s enough short = absurd (cc s)
