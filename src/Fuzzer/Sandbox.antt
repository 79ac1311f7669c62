-- ===== src/Fuzzer/Sandbox.antt =====
-- The sandbox, sandbox.c of 544final/fuzzer_final/Fuzzy_v_0.5: its state, random strings and paths.
use cs.Common.{
  ℤ, pos, ℕ, zero, suc, ◌+◌, ◌-◌, ◌*◌, ◌/◌, ◌%◌, Bool, true, false, ltb, if◌then◌else◌, Option,
  List, [], ◌∷◌, update,
}
use cs.Fuzzer.Spec.{FuzType, arg_path_file_exist, arg_path_file_nonexist, arg_path_dir_exist}

-- A result; `fault`: a signal ends the process, `endless`: the fuel ran out.
pub data Run {ℓ} (A : Type ℓ) : Type ℓ where
  ok : A → Run A
  fault : Run A
  endless : Run A

-- What follows a result, if there is one.
unfoldable pub bind {ℓ κ} : {A : Type ℓ} {B : Type κ} → Run A → (A → Run B) → Run B
bind (ok x) f = f x
bind fault f = fault
bind endless f = endless

-- `SANDBOX_REGION_SIZE`, `MAX_LEN_PATH`, `MAX_LEN_FNAME`, and `FD_STATE_CLOSED`
abbrev pub region_size : ℕ
region_size = 40960

abbrev pub max_len_path : ℕ
max_len_path = 1024

abbrev pub max_len_fname : ℕ
max_len_fname = 128

abbrev pub fd_state_closed : ℕ
fd_state_closed = 128

-- The type flag that `nftw` hands to its callback.
pub data Tflag : Type 0 where
  ftw_f ftw_d ftw_other : Tflag

-- `tflag == FTW_D`, `tflag == FTW_F`
abbrev pub is_dir : Tflag → Bool
is_dir ftw_d = true
is_dir t = false

abbrev pub is_file : Tflag → Bool
is_file ftw_f = true
is_file t = false

pub record Entry : Type 0 where
  pub fpath : List ℕ
  pub tflag : Tflag

-- What the program takes from outside: the values of `rand()` in turn, the address of `sandbox`,
-- the addresses that can be written, the entries that `nftw` visits, in their order, `makedev`, and
-- `syscall` on a number, the arguments and memory.
pub record Outside : Type 0 where
  pub rand : ℕ → ℕ
  pub sandbox : ℕ
  pub mapped : ℕ → Bool
  pub tree : List Entry
  pub makedev : ℕ → ℕ → ℕ
  pub syscall : (scid : ℕ) → (args : List ℕ) → (ℕ → ℕ) → Run (ℤ × (ℕ → ℕ))

-- `fd_pool_item`
pub record Item : Type 0 where
  pub fd : ℕ
  pub mode : ℕ
  pub last_scid : ℤ

-- The state of a process: bytes by address, the number of calls of `rand()`, `fd_pool` by index
-- (from 110 on, what lies behind the array), `last_fd_used` as an index, `callback_path_tmp`.
pub record Box : Type 0 where
  pub mem : ℕ → ℕ
  pub drawn : ℕ
  pub fd_pool : ℕ → Item
  pub last_fd_used : Option ℕ
  pub callback_path_tmp : List ℕ

-- The `n` low bytes of `v`, the lowest first.
unfoldable pub put : (ℕ → ℕ) → (a n v : ℕ) → ℕ → ℕ
put m a zero v = m
put m a (suc n) v = update (put m (a + 1) n (v / 256)) a (v % 256)

-- `strcpy`
unfoldable pub strcpy : (ℕ → ℕ) → (dst : ℕ) → (src : List ℕ) → ℕ → ℕ
strcpy m a [] = update m a 0
strcpy m a (c ∷ cs') = update (strcpy m (a + 1) cs') a c

-- `rrand` for the value `r` of `rand()`, with `min <= max`.
unfoldable pub rrand : (r min max : ℕ) → ℕ
rrand r min max = min + r % (max - min + 1)

module _ (o : Outside) where
  -- `sandbox[argno]`
  abbrev pub region : ℕ → ℕ
  region argno = o.sandbox + argno * region_size

  -- The next value of `rand()`, and the state behind `n` calls.
  abbrev pub next : Box → ℕ → ℕ
  next b n = o.rand (b.drawn + n)

  abbrev pub drew : Box → ℕ → Box
  drew b n = record b { drawn = b.drawn + n }

  -- `helper_gen_fuz_str`
  unfoldable pub helper_gen_fuz_str : (ptr cnt : ℕ) → Box → Box
  unfolding rrand
  helper_gen_fuz_str ptr zero b = b
  helper_gen_fuz_str ptr (suc n) b =
      let c = if ltb (next b 0 % 100) 5 then next b 1 % 256 else rrand (next b 1) 97 122 in
      helper_gen_fuz_str (ptr + 1) n (record (drew b 2) { mem = update b.mem ptr c })

  -- `callback_get_path`: whether it stops the walk, and `callback_path_tmp`.
  unfoldable pub callback_get_path : FuzType → (r : ℕ) → Entry → List ℕ → Bool × List ℕ
  callback_get_path arg_path_dir_exist r e tmp =
      if ltb (r % 50) 2
      then (if is_dir e.tflag then (true, e.fpath) else (false, tmp))
      else (false, tmp)
  callback_get_path arg_path_file_exist r e tmp =
      if ltb (r % 50) 2
      then (if is_file e.tflag then (true, e.fpath) else (false, tmp))
      else (false, tmp)
  callback_get_path t r e tmp = (ltb (r % 50) 2, tmp)

  -- `nftw` with this callback.
  unfoldable pub walk_path : FuzType → List Entry → Box → Box
  unfolding callback_get_path
  walk_path t [] b = b
  walk_path t (e ∷ es) b =
      let called = callback_get_path t (next b 0) e b.callback_path_tmp in
      let b' : Box = record (drew b 1) { callback_path_tmp = called.1 } in
      let rest = walk_path t es b' in if called.0 then b' else rest

  -- The loop of `gen_path`; 47 is the slash.
  unfoldable pub path_loop : (fuel len cnt dst : ℕ) → Box → Run (ℕ × Box)
  unfolding helper_gen_fuz_str
  path_loop zero len cnt dst b = endless
  path_loop (suc fuel) len cnt dst b =
      let chunk_len = next b 0 % max_len_fname in
      let b1 = helper_gen_fuz_str (dst + cnt) chunk_len (drew b 1) in
      let cnt' = cnt + chunk_len - 1 in
      let b2 : Box = record b1 { mem = update b1.mem (dst + cnt') 47 } in
      let rest = path_loop fuel len (cnt' + 1) dst b2 in if ltb cnt len then rest else ok (cnt, b)

  -- The end of the string.
  unfoldable pub end_path : (dst : ℕ) → Run (ℕ × Box) → Run (ℤ × Box)
  end_path dst (ok (cnt, b)) = ok (pos 0, record b { mem = update b.mem (dst + cnt) 0 })
  end_path dst fault = fault
  end_path dst endless = endless

  -- The two branches of `gen_path`.
  unfoldable pub new_path : (fuel dst : ℕ) → Box → Run (ℤ × Box)
  unfolding path_loop end_path
  new_path fuel dst b =
      let len = next b 0 % max_len_path in
      let b1 : Box = record (drew b 1) { mem = update b.mem dst 47 } in
      end_path dst (path_loop fuel len 1 dst b1)

  unfoldable pub old_path : FuzType → (dst : ℕ) → Box → Run (ℤ × Box)
  unfolding walk_path
  old_path t dst b =
      let b1 = walk_path t o.tree b in
      ok (pos 0, record b1 { mem = strcpy b1.mem dst b1.callback_path_tmp })

  unfoldable pub gen_path : (fuel : ℕ) → FuzType → (dst : ℕ) → Box → Run (ℤ × Box)
  unfolding new_path old_path
  gen_path fuel arg_path_file_nonexist dst b = new_path fuel dst b
  gen_path fuel t dst b = old_path t dst b
