-- ===== src/Slob/Cache/Tests.antt =====
-- A cache of objects of 200 bytes that are destroyed by RCU, on an allocator without pages.
use cs.Common.{
  ltb, if◌then◌else◌, inl, inr, ℕ, ◌+◌, ◌*◌, ◌≤◌, ◌<◌, ◌≡◌, ◌⊎◌, refl, true, false, none, some, [],
  arith, ◌==◌,
}
use cs.Slob.PageAlloc.{align_gap, align_up}
use cs.Slob.Allocator.{State, ok}
use cs.Slob.Allocator.Free.{release_page}
use cs.Slob.Cache.{Arch, KmemCache, kmem_cache_alloc_node, kmem_cache_free}
use cs.Slob.Block.{Mem}
use cs.Slob.Cache.RoundTrip.{complete, kmem_cache_lem, IsHeadOnly, IsFooter}

abbrev no_pages : State
no_pages = record {
  mem = λ _. 0;
  page = λ _. record { slab = false; slob_free = false; units = 0; free = 0; private = 0 };
  lists = λ _. [];
}

abbrev arch : Arch
arch = record {
  cache_bytes = 40;
  rcu_bytes = 24;
  head_bytes = 16;
  slob_align = 64;
  kmalloc_minalign = 8;
  slab_minalign = 8;
}

abbrev objects : KmemCache
objects = record {
  address = 2048;
  size = 224;
  align = 8;
  flags = record { destroy_by_rcu = true; hwcache_align = false; panic = false };
  ctor = none;
}

aligned_page : align_gap (7 * 2048) 8 ≡ 0
unfolding align_gap align_up
aligned_page = refl

-- A `call_rcu` that clears the units of the head.
abbrev clear_head : ℕ → Mem → Mem
clear_head a mem y = if ltb (2 * y + 1) a then mem y else if ltb (2 * y) (a + 16) then 0 else mem y

clear_head-IsHeadOnly : IsHeadOnly arch clear_head
unfolding IsHeadOnly
clear_head-IsHeadOnly a mem y (inl below) = ground arith
clear_head-IsHeadOnly a mem y (inr above) = ground arith

footer : IsFooter arch 224
footer = record { head = refl; size_inside = omega arith; room = omega arith; even = refl }

kmem_cache_lem_example :
    (st' : State) × (mem : Mem) × (kmem_cache_alloc_node 5 no_pages objects false (some 7)
      ≡ ok (st', some (7 * 2048)))
    × (complete arch (kmem_cache_free clear_head st' arch objects (7 * 2048))
        ≡ ok (release_page (record st' { mem = mem }) 7, some 7))
    × ((i : ℕ) → (i == 7) ≡ false → st'.page i ≡ no_pages.page i)
    × ((y : ℕ) → (y < 7 * 2048) ⊎ (7 * 2048 + 2048 ≤ y) → (st'.mem y ≡ 0) × (mem y ≡ 0))
kmem_cache_lem_example =
    kmem_cache_lem 5 clear_head no_pages arch objects 7 clear_head-IsHeadOnly footer tt refl
      (omega arith) (omega arith) aligned_page (omega arith)
