-- ===== src/Slob.antt =====
-- The SLOB allocator, indwriterups/project4/slob.c: `Block` the free blocks in a page's memory,
-- `PageAlloc` and `PageFree` the search of one page and the insertion into one, `Allocator` the
-- pages, their lists and the entry points, `Kmalloc`, `Cache` and `Fragmentation` what stands on them.
pub mod Block
pub mod PageAlloc
pub mod PageFree
pub mod Allocator
pub mod Kmalloc
pub mod Fragmentation
pub mod Cache
pub mod Heap
mod Tests
