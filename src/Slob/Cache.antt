-- ===== src/Slob/Cache.antt =====
-- `kmem_cache_*` of indwriterups/project4/slob.c. The fields of a `struct kmem_cache` are a record;
-- `name` serves messages, and of the flags the three that the code tests are kept.
mod RoundTrip
mod Tests
use cs.Common.{
  ℕ, ◌+◌, ◌-◌, ◌*◌, ◌/◌, Bool, true, false, Option, none, some, ltb, ◌==◌, if◌then◌else◌,
}
use cs.Slob.Block.{Mem}
use cs.Slob.Kmalloc.{write_size, read_size}
use cs.Slob.Allocator.{State, Run, ok, bug, endless}
use cs.Slob.Allocator.Alloc.{slob_alloc}
use cs.Slob.Allocator.Free.{slob_free}

-- What the configuration fixes: `sizeof(struct kmem_cache)`, `sizeof(struct slob_rcu)`, the offset
-- of `size` in it, behind its `head`, SLOB_ALIGN, ARCH_KMALLOC_MINALIGN and ARCH_SLAB_MINALIGN.
pub record Arch : Type 0 where
  pub cache_bytes : ℕ
  pub rcu_bytes : ℕ
  pub head_bytes : ℕ
  pub slob_align : ℕ
  pub kmalloc_minalign : ℕ
  pub slab_minalign : ℕ

-- SLAB_DESTROY_BY_RCU, SLAB_HWCACHE_ALIGN, SLAB_PANIC
pub record Flags : Type 0 where
  pub destroy_by_rcu : Bool
  pub hwcache_align : Bool
  pub panic : Bool

-- `struct kmem_cache` and its address
pub record KmemCache : Type 0 where
  pub address : ℕ
  pub size : ℕ
  pub align : ℕ
  pub flags : Flags
  pub ctor : Option (ℕ → State → State)

max : ℕ → ℕ → ℕ
max a b = if ltb a b then b else a

-- `c->size` and `c->align` of `kmem_cache_create`
unfoldable pub cache_size : Arch → (size : ℕ) → Flags → ℕ
cache_size arch size flags = if flags.destroy_by_rcu then size + arch.rcu_bytes else size

unfoldable pub cache_align : Arch → (align : ℕ) → Flags → ℕ
unfolding max
cache_align arch align flags =
    max (max (if flags.hwcache_align then arch.slob_align else 0) arch.slab_minalign) align

-- `kmem_cache_create`; `fresh` is the page that `slob_new_pages` returns when it is called.
pub kmem_cache_create :
    (fuel : ℕ)
    → State
    → Arch
    → (size align : ℕ) → Flags
    → Option (ℕ → State → State)
    → (fresh : Option ℕ) → Run (State × Option KmemCache)
unfolding cache_size cache_align
kmem_cache_create fuel st arch size align flags ctor fresh =
    elim (slob_alloc fuel st arch.cache_bytes arch.kmalloc_minalign false fresh) [
      | ok (st', some c) ↦ ok (
        st',
        some (record {
          address = c;
          size = cache_size arch size flags;
          align = cache_align arch align flags;
          flags = flags;
          ctor = ctor;
        }),
      )
      | ok (st', none) ↦ if flags.panic then bug else ok (st', none)
      | bug ↦ bug
      | endless ↦ endless
    ]

-- `kmem_cache_destroy`, after `rcu_barrier`
pub kmem_cache_destroy : State → Arch → KmemCache → Run (State × Option ℕ)
kmem_cache_destroy st arch c = slob_free st c.address arch.cache_bytes

-- `c->ctor(b)`, for a null `b` too
unfoldable pub construct : KmemCache → Run (State × Option ℕ) → Run (State × Option ℕ)
construct c (ok (st, b)) = elim c.ctor [
  | none ↦ ok (st, b)
  | some f ↦ elim b [ none ↦ ok (f 0 st, none) | some x ↦ ok (f x st, some x) ]
]
construct c bug = bug
construct c endless = endless

-- `kmem_cache_alloc_node`; from a page's size on, `fresh` is the first of the pages.
unfoldable pub kmem_cache_alloc_node :
    (fuel : ℕ) → State → KmemCache → (zero_it : Bool) → (fresh : Option ℕ) → Run (State × Option ℕ)
unfolding construct
kmem_cache_alloc_node fuel st c zero_it fresh = construct c (
    if ltb c.size 4096
    then slob_alloc fuel st c.size c.align zero_it fresh
    else elim fresh [ none ↦ ok (st, none) | some sp ↦ ok (st, some (sp * 2048)) ])

-- `__kmem_cache_free`: the new state, and the page given to `slob_free_pages`.
unfoldable pub cache_free_block : State → (b size : ℕ) → Run (State × Option ℕ)
cache_free_block st b size = if ltb size 4096 then slob_free st b size else ok (st, some (b / 2048))

-- `kmem_cache_free`: freed at once, or handed to `call_rcu`, with the state then and the byte address
-- of the `struct slob_rcu` in it.
pub data FreeRun : Type 0 where
  freed : Run (State × Option ℕ) → FreeRun
  deferred : State → (slob_rcu : ℕ) → FreeRun

-- The unit where `size` of the `struct slob_rcu` at a byte address stands; both are even.
unfoldable pub rcu_size : Arch → (slob_rcu : ℕ) → ℕ
rcu_size arch slob_rcu = (slob_rcu + arch.head_bytes) / 2

-- `kmem_cache_free`: the size is noted in the block; `call_rcu` is what the kernel's function of
-- this name writes for the `head` at a byte address.
unfoldable pub kmem_cache_free :
    (call_rcu : ℕ → Mem → Mem) → State → Arch → KmemCache → (b : ℕ) → FreeRun
unfolding cache_free_block rcu_size
kmem_cache_free call_rcu st arch c b =
    let slob_rcu = 2 * b + (c.size - arch.rcu_bytes) in
    if c.flags.destroy_by_rcu
    then deferred
        (record st { mem = call_rcu slob_rcu (write_size st.mem (rcu_size arch slob_rcu) c.size) })
        slob_rcu
    else freed (cache_free_block st b c.size)

-- `kmem_rcu_free`, when the grace period is over: the size is read from the block.
unfoldable pub kmem_rcu_free : State → Arch → (slob_rcu : ℕ) → Run (State × Option ℕ)
unfolding cache_free_block rcu_size
kmem_rcu_free st arch slob_rcu =
    let size = read_size st.mem (rcu_size arch slob_rcu) in
    cache_free_block st ((slob_rcu - (size - arch.rcu_bytes)) / 2) size
