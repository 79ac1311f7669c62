-- ===== src/Slob/Cache/RoundTrip.antt =====
-- Allocation of an object of a cache, and its free, at once or after a grace period.
use cs.Common.{
  ℕ, ◌+◌, ◌-◌, ◌*◌, ◌/◌, ◌%◌, refl, if◌then◌else◌, ◌≤◌, ◌<◌, ◌≡◌, ◌⊎◌, ap, ◌∙◌, false, Option, none,
  some, arith, Bool-cases, inl, inr, ◌==◌,
}
use cs.Slob.Block.{Mem}
use cs.Slob.PageAlloc.{align_gap}
use cs.Slob.Kmalloc.{write_size, read_size}
use cs.Slob.Kmalloc.RoundTrip.{read_size-write_size, write_size-frame}
use cs.Slob.Allocator.{State, Run, ok, size_class}
use cs.Slob.Allocator.BestFit.Ends.{ArePages}
use cs.Slob.Allocator.Alloc.{slob_alloc}
use cs.Slob.Allocator.Alloc.TakePage.{slob_alloc-TakesPage}
use cs.Slob.Allocator.Free.{release_page, slob_free}
use cs.Slob.Cache.{
  Arch, KmemCache, construct, kmem_cache_alloc_node, cache_free_block, FreeRun, freed, deferred,
  kmem_cache_free, kmem_rcu_free, rcu_size,
}

alloc-run :
    (fuel : ℕ) (st : State) (c : KmemCache) (fresh : Option ℕ) (r : State × Option ℕ)
    → c.ctor ≡ none
    → c.size < 4096
    → slob_alloc fuel st c.size c.align false fresh ≡ ok r
    → kmem_cache_alloc_node fuel st c false fresh ≡ ok r
unfolding kmem_cache_alloc_node construct
alloc-run fuel st c fresh r plain small e = ground arith

free-run :
    (st : State) (b size : ℕ) (r : Run (State × Option ℕ))
    → size < 4096
    → slob_free st b size ≡ r
    → cache_free_block st b size ≡ r
unfolding cache_free_block
free-run st b size r small e = ground arith

-- What is documented of `call_rcu`: of memory it writes nothing but the `head` it is given.
unfoldable pub IsHeadOnly : Arch → (ℕ → Mem → Mem) → Type 0
IsHeadOnly arch call_rcu =
    (a : ℕ) (mem : Mem) (y : ℕ)
    → (2 * y + 2 ≤ a) ⊎ (a + arch.head_bytes ≤ 2 * y)
    → call_rcu a mem y ≡ mem y

-- `struct slob_rcu`: a `head` of whole units, and behind it the four bytes of `size`.
pub record IsFooter (arch : Arch) (size : ℕ) : Type 0 where
  pub head : arch.head_bytes % 2 ≡ 0
  pub size_inside : arch.head_bytes + 4 ≤ arch.rcu_bytes
  pub room : arch.rcu_bytes ≤ size
  pub even : (size - arch.rcu_bytes) % 2 ≡ 0

-- Memory when the block `b` has been handed to `call_rcu`, the footer written.
noted : (ℕ → Mem → Mem) → State → Arch → (b size : ℕ) → Mem
noted call_rcu st arch b size =
    let a = 2 * b + (size - arch.rcu_bytes) in call_rcu a (write_size st.mem (rcu_size arch a) size)

-- The block that `kmem_rcu_free` finds by its footer is the one that was freed.
footer_at : (b size n : ℕ) → n ≤ size → (2 * b + (size - n) - (size - n)) / 2 ≡ b
footer_at b size n le = omega arith

module _ (call_rcu : ℕ → Mem → Mem) (st : State) (arch : Arch) (b size : ℕ)
    (only : IsHeadOnly arch call_rcu) (f : IsFooter arch size) (small : size < 4096) where
  noted-size :
      read_size (noted call_rcu st arch b size) (rcu_size arch (2 * b + (size - arch.rcu_bytes)))
      ≡ size
  unfolding noted rcu_size read_size IsHeadOnly
  noted-size =
      let a = 2 * b + (size - arch.rcu_bytes) in
      let at = (a + arch.head_bytes) / 2 in
      let mem = write_size st.mem at size in
      let e0 = only a mem at (inr (omega (arith, f.head, f.even))) in
      let e1 = only a mem (at + 1) (inr (omega (arith, f.head, f.even))) in
      let kept : read_size mem at ≡ size = read_size-write_size st.mem at size (omega arith) in
      omega (arith, e0, e1, kept)

  noted-frame : (y : ℕ) → (y < b) ⊎ (b + 2048 ≤ y) → noted call_rcu st arch b size y ≡ st.mem y
  unfolding noted rcu_size IsHeadOnly
  noted-frame y out =
      let a = 2 * b + (size - arch.rcu_bytes) in
      let at = (a + arch.head_bytes) / 2 in
      let mem = write_size st.mem at size in
      only a mem y (elim out [
        | inl below ↦ inl (omega arith)
        | inr above ↦ inr (omega (arith, f.size_inside, f.room))
      ])
      ∙ write_size-frame st.mem at size y (elim out [
        | inl below ↦ inl (omega arith)
        | inr above ↦ inr (omega (arith, f.size_inside, f.room))
      ])

rcu-run :
    (st : State) (arch : Arch) (b size : ℕ)
    → arch.rcu_bytes ≤ size
    → read_size st.mem (rcu_size arch (2 * b + (size - arch.rcu_bytes))) ≡ size
    → kmem_rcu_free st arch (2 * b + (size - arch.rcu_bytes)) ≡ cache_free_block st b size
unfolding kmem_rcu_free
rcu-run st arch b size le reads =
    rw reads (ap (λ (x : ℕ). cache_free_block st x size) (footer_at b size arch.rcu_bytes le))

-- A free that is handed to `call_rcu` is completed at the end of the grace period.
abbrev pub complete : Arch → FreeRun → Run (State × Option ℕ)
complete arch (freed r) = r
complete arch (deferred st slob_rcu) = kmem_rcu_free st arch slob_rcu

-- Memory when a block has been handed to `kmem_cache_free`.
after_free : (ℕ → Mem → Mem) → State → Arch → KmemCache → (b : ℕ) → Mem
after_free call_rcu st arch c b =
    if c.flags.destroy_by_rcu then noted call_rcu st arch b c.size else st.mem

free-complete :
    (call_rcu : ℕ → Mem → Mem) (st : State) (arch : Arch) (c : KmemCache) (b sp : ℕ)
    → IsHeadOnly arch call_rcu
    → IsFooter arch c.size
    → c.size < 4096
    → ((mem : Mem)
        → slob_free (record st { mem = mem }) b c.size
          ≡ ok (release_page (record st { mem = mem }) sp, some sp))
    → complete arch (kmem_cache_free call_rcu st arch c b)
      ≡ ok (release_page (record st { mem = after_free call_rcu st arch c b }) sp, some sp)
unfolding kmem_cache_free after_free noted
free-complete call_rcu st arch c b sp only f small e = elim (Bool-cases c.flags.destroy_by_rcu) [
  | inl later ↦
      let mem = noted call_rcu st arch b c.size in
      rw later (
        rcu-run (record st { mem = mem }) arch b c.size f.room
          (noted-size call_rcu st arch b c.size only f small)
        ∙ free-run (record st { mem = mem }) b c.size _ small (e mem))
  | inr now ↦ rw now (free-run st b c.size _ small (e st.mem))
]

after_free-frame :
    (call_rcu : ℕ → Mem → Mem) (st : State) (arch : Arch) (c : KmemCache) (b y : ℕ)
    → IsHeadOnly arch call_rcu
    → IsFooter arch c.size
    → c.size < 4096
    → (y < b) ⊎ (b + 2048 ≤ y)
    → after_free call_rcu st arch c b y ≡ st.mem y
unfolding after_free
after_free-frame call_rcu st arch c b y only f small out =
    elim (Bool-cases c.flags.destroy_by_rcu) [
      | inl later ↦ rw later (noted-frame call_rcu st arch b c.size only f small y out)
      | inr now ↦ rw now refl
    ]

-- An object of a cache without constructor, smaller than a page, with room for the RCU footer at an
-- even offset, with well-formed pages on the list for its size, a new page that starts aligned,
-- and a `call_rcu` that writes nothing but the footer's head: the new page is taken, the object
-- starts it, and freeing it gives the page back, at once or by the callback after the grace
-- period, which reads the size from the footer in memory. Other pages and the memory outside the
-- page stay, through the allocation and through the free.
pub kmem_cache_lem :
    (fuel : ℕ) (call_rcu : ℕ → Mem → Mem) (st : State) (arch : Arch) (c : KmemCache) (sp : ℕ)
    → IsHeadOnly arch call_rcu
    → IsFooter arch c.size
    → ArePages st (st.lists (size_class c.size))
    → c.ctor ≡ none
    → 0 < c.size
    → c.size < 4096
    → align_gap (sp * 2048) c.align ≡ 0
    → 0 < sp
    → (st' : State) × (mem : Mem) × (kmem_cache_alloc_node fuel st c false (some sp)
        ≡ ok (st', some (sp * 2048)))
      × (complete arch (kmem_cache_free call_rcu st' arch c (sp * 2048))
          ≡ ok (release_page (record st' { mem = mem }) sp, some sp))
      × ((i : ℕ) → (i == sp) ≡ false → st'.page i ≡ st.page i)
      × ((y : ℕ)
          → (y < sp * 2048) ⊎ (sp * 2048 + 2048 ≤ y)
          → (st'.mem y ≡ st.mem y) × (mem y ≡ st.mem y))
kmem_cache_lem fuel call_rcu st arch c sp only f pages plain pos small aligned real =
    let (st1, t) =
      slob_alloc-TakesPage fuel st c.size c.align sp pages pos (omega arith) aligned real in
    (
      st1,
      after_free call_rcu st1 arch c (sp * 2048),
      alloc-run fuel st c (some sp) (st1, some (sp * 2048)) plain small t.run,
      free-complete call_rcu st1 arch c (sp * 2048) sp only f small t.back,
      t.others,
      λ y out. (
        t.frame y out,
        after_free-frame call_rcu st1 arch c (sp * 2048) y only f small out ∙ t.frame y out,
      ),
    )
