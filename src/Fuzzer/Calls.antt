-- ===== src/Fuzzer/Calls.antt =====
-- `sandbox_syscall_fuzargs` and `sandbox_syscall_run`, sandbox.c of
-- 544final/fuzzer_final/Fuzzy_v_0.5. The log is left out.
use cs.Common.{
  ◌-◌, ◌^◌, ltb, ℤ, pos, negsuc, ℕ, zero, suc, ◌+◌, ◌%◌, ◌==◌, if◌then◌else◌, Option, none, some,
  List, [], ◌∷◌, get_elem?, update,
}
use cs.Fuzzer.Spec.{
  FuzType, arg_end, Call, sys_open, sys_creat, sys_close, ScallDesc, get_scall_desc,
}
use cs.Fuzzer.Sandbox.{Run, ok, fault, bind, fd_state_closed, Outside, Box, region, next, drew}
use cs.Fuzzer.Args.{sandbox_syscall_fuzarg}

-- The loop that counts the types of an argument.
unfoldable pub count_types : List FuzType → ℕ
count_types [] = 0
count_types (arg_end ∷ ts) = 0
count_types (t ∷ ts) = suc (count_types ts)

unfoldable pub drawn_type : Option FuzType → Run FuzType
drawn_type none = fault
drawn_type (some t) = ok t

module _ (o : Outside) (sys : Call → ℕ) where
  -- The type drawn for an argument; without a type, `rand() % 0` raises a signal.
  unfoldable pub draw_type : List FuzType → Box → Run FuzType
  unfolding count_types drawn_type
  draw_type ts b =
      let n = count_types ts in if n == 0 then fault else drawn_type (get_elem? ts (next o b 0 % n))

  -- The loop of `sandbox_syscall_fuzargs`: `n` arguments from `argidx` on, with their rows of
  -- `arg_type`.
  unfoldable pub fuzargs_loop : (fuel n argidx : ℕ) → List (List FuzType) → Box → Run Box
  unfolding draw_type bind
  fuzargs_loop fuel zero i rows b = ok b
  fuzargs_loop fuel (suc n) i [] b = fault
  fuzargs_loop fuel (suc n) i (ts ∷ rows) b = bind (draw_type ts b) (λ t.
      bind (sandbox_syscall_fuzarg o fuel i t (drew o b 1))
        (λ done. fuzargs_loop fuel n (i + 1) rows done.1))

  -- `sandbox_syscall_fuzargs`, with what `get_scall_desc` finds.
  unfoldable pub fuzargs_of : (fuel : ℕ) → Option ScallDesc → Box → Run (ℤ × Box)
  unfolding fuzargs_loop bind
  fuzargs_of fuel none b = ok (negsuc 0, b)
  fuzargs_of fuel (some d) b =
      bind (fuzargs_loop fuel d.argnum 0 d.arg_type b) (λ b'. ok (pos 0, b'))

  unfoldable pub sandbox_syscall_fuzargs : (fuel : ℕ) → ℤ → Box → Run (ℤ × Box)
  unfolding fuzargs_of
  sandbox_syscall_fuzargs fuel scid b = fuzargs_of fuel (get_scall_desc sys scid) b

  -- The arguments of `syscall`, by `argnum`.
  unfoldable pub call_args : (argnum : ℕ) → Option (List ℕ)
  call_args (suc zero) = some (region o 0 ∷ [])
  call_args (suc (suc zero)) = some (region o 0 ∷ region o 1 ∷ [])
  call_args (suc (suc (suc zero))) = some (region o 0 ∷ region o 1 ∷ region o 2 ∷ [])
  call_args n = none

  -- The update of the pool behind a call without an error.
  unfoldable pub set_mode : (scid i mode : ℕ) → Box → Box
  set_mode scid i mode b = record b {
    fd_pool = update b.fd_pool i (record (b.fd_pool i) { last_scid = pos scid; mode = mode });
    last_fd_used = none;
  }

  -- `(mode_t)` of a `char`: the sign is extended to the 32 bits.
  unfoldable pub char_mode : (byte : ℕ) → ℕ
  char_mode byte = if ltb byte 128 then byte else byte + (2 ^ 32 - 256)

  unfoldable pub update_used : (scid : ℕ) → Option ℕ → Box → Box
  unfolding set_mode char_mode
  update_used scid none b = b
  update_used scid (some i) b =
      if scid == sys sys_open
      then set_mode scid i (char_mode (b.mem (region o 2))) b
      else if scid == sys sys_creat
      then set_mode scid i (char_mode (b.mem (region o 1))) b
      else if scid == sys sys_close
      then set_mode scid i fd_state_closed b
      else record b { last_fd_used = none }

  unfoldable pub update_pool : (scid : ℕ) → ℤ → Box → Box
  unfolding update_used
  update_pool scid (negsuc e) b = b
  update_pool scid (pos r) b = update_used scid b.last_fd_used b

  -- `syscall` and what follows; `args` is none for a call without a case in the switch.
  unfoldable pub call : (scid : ℕ) → Option (List ℕ) → Box → Run (ℤ × Box)
  unfolding update_pool bind
  call scid none b = ok (negsuc 0, b)
  call scid (some args) b =
      bind (o.syscall scid args b.mem)
        (λ done. ok (done.0, update_pool scid done.0 (record b { mem = done.1 })))

  -- `sandbox_syscall_run`, with what `get_scall_desc` finds for the number.
  unfoldable pub run_of : (fuel scid : ℕ) → Option ScallDesc → Box → Run (ℤ × Box)
  unfolding sandbox_syscall_fuzargs call call_args bind
  run_of fuel scid none b = ok (negsuc 0, b)
  run_of fuel scid (some d) b =
      bind (sandbox_syscall_fuzargs fuel (pos scid) b)
        (λ done. call scid (call_args d.argnum) done.1)

  unfoldable pub sandbox_syscall_run : (fuel : ℕ) → ℤ → Box → Run (ℤ × Box)
  unfolding run_of
  sandbox_syscall_run fuel (negsuc n) b = ok (negsuc 0, b)
  sandbox_syscall_run fuel (pos scid) b = run_of fuel scid (get_scall_desc sys (pos scid)) b
