-- ===== src/Fuzzer/Pool.antt =====
-- The pool of file descriptors, sandbox.c of 544final/fuzzer_final/Fuzzy_v_0.5.
use cs.Common.{
  negsuc, ℕ, zero, suc, ◌+◌, ◌-◌, ◌*◌, Bool, ltb, leb, ◌==◌, if◌then◌else◌, Option, none, some,
  List, [], ◌∷◌, update,
}
use cs.Fuzzer.Spec.{FuzType, arg_uint_fd_ropen, arg_uint_fd_wopen}
use cs.Fuzzer.Sandbox.{Tflag, ftw_f, Item, fd_state_closed}

-- `FD_POOL_NUM_ROPEN`, `FD_POOL_NUM_WOPEN`, `FD_POOL_NUM_CLOSED`, and the size of `fd_pool`.
abbrev pub num_ropen : ℕ
num_ropen = 50

abbrev pub num_wopen : ℕ
num_wopen = 50

abbrev pub num_closed : ℕ
num_closed = 10

abbrev pub pool_size : ℕ
pool_size = num_ropen + num_wopen + num_closed

-- `O_RDONLY`, `O_WRONLY`
abbrev pub o_rdonly : ℕ
o_rdonly = 0

abbrev pub o_wronly : ℕ
o_wronly = 1

-- A visit of `nftw`: the type flag, what `open` gives (none: -1), and whether `close` succeeds.
pub record Visit : Type 0 where
  pub tflag : Tflag
  pub opened : Option ℕ
  pub closes : Bool

-- `fd_pool` by index, and `fd_pool_cnt`.
pub record Pool : Type 0 where
  pub items : ℕ → Item
  pub cnt : ℕ

-- A new item at the end.
unfoldable pub add_item : (fd mode : ℕ) → Pool → Pool
add_item fd mode p = record {
  items = update p.items p.cnt (record { fd = fd; mode = mode; last_scid = negsuc 0 });
  cnt = p.cnt + 1;
}

unfoldable pub add_opened : Option ℕ → (mode : ℕ) → Pool → Pool
unfolding add_item
add_opened none mode p = p
add_opened (some fd) mode p = add_item fd mode p

-- The three branches of `callback_fd_pool_populate` on a file.
unfoldable pub populate_file : Option ℕ → (closes : Bool) → Pool → Pool
unfolding add_opened
populate_file opened closes p =
    if ltb num_wopen p.cnt
    then (if closes then add_opened opened fd_state_closed p else p)
    else if ltb num_ropen p.cnt
    then add_opened opened o_wronly p
    else add_opened opened o_rdonly p

-- `callback_fd_pool_populate`, with room in the pool.
unfoldable pub populate_visit : Tflag → Option ℕ → (closes : Bool) → Pool → Pool
unfolding populate_file
populate_visit ftw_f opened closes p = populate_file opened closes p
populate_visit t opened closes p = p

-- `nftw` with `callback_fd_pool_populate`
unfoldable pub populate_walk : List Visit → Pool → Pool
unfolding populate_visit
populate_walk [] p = p
populate_walk (v ∷ vs) p =
    let p' = populate_visit v.tflag v.opened v.closes p in
    let rest = populate_walk vs p' in if leb pool_size p.cnt then p else rest

unfoldable pub fd_pool_populate : List Visit → (ℕ → Item) → Pool
unfolding populate_walk
fd_pool_populate vs items = populate_walk vs (record { items = items; cnt = 0 })

-- The loop of `find_fd_in_pool` over `n` indices from `i` on.
unfoldable pub find_mode : (n i mode : ℕ) → (ℕ → Item) → Option ℕ
find_mode zero i mode items = none
find_mode (suc n) i mode items =
    let rest = find_mode n (i + 1) mode items in if (items i).mode == mode then some i else rest

unfoldable pub mode_of : FuzType → ℕ
mode_of arg_uint_fd_ropen = o_rdonly
mode_of arg_uint_fd_wopen = o_wronly
mode_of t = fd_state_closed

-- The index returned, behind the loop the last one.
unfoldable pub found_index : Option ℕ → ℕ
found_index (some i) = i
found_index none = pool_size * 12 - 1

-- `find_fd_in_pool`, as an index: `sizeof(fd_pool)` is 12 bytes for each item.
unfoldable pub find_fd_in_pool : FuzType → (ℕ → Item) → ℕ
unfolding find_mode mode_of found_index
find_fd_in_pool t items = found_index (find_mode (pool_size * 12) 0 (mode_of t) items)
