-- ===== src/Lib.antt =====
-- A verification library for the C programs of this repository: kernel modules (a SLOB allocator,
-- an SSTF elevator) and small concurrent programs.
--
-- Slob: indwriterups/project4/slob.c with BEST_FIT and without CONFIG_NUMA. An address counts
-- units of `SLOB_UNIT` = 2 bytes, a page of 4096 bytes is 2048 units, and a unit of memory holds
-- the 16-bit pattern of an `s16`. Slob.Block has `set_slob`, `slob_units`, `slob_next`,
-- `slob_last`; Slob.Block.FreeList says when memory holds a list of free blocks. Slob.PageAlloc is
-- the search loop of `slob_page_alloc`, Slob.PageAlloc.Fit its specification (first fit on a list
-- of blocks), its other children relate the two. Slob.PageFree is the part of `slob_free` that
-- inserts a block into a page, Slob.PageFree.Insert its specification (insertion into a sorted
-- list, neighbours joined). Slob.Allocator has the pages, the eleven lists of partially free pages
-- by size (`free_slob_*`), and the whole functions: `slob_page_alloc`, `best_fit`
-- (Slob.Allocator.BestFit), `slob_alloc` (Slob.Allocator.Alloc), `slob_free`
-- (Slob.Allocator.Free). The page allocator is outside: the page that `slob_new_pages` returns is
-- an argument, the page given to `slob_free_pages` a result. Slob.Kmalloc has `__kmalloc_node`,
-- `kfree` and `ksize` (the larger of the two minimal alignments is an argument),
-- Slob.Fragmentation `get_fragmentation`, Slob.Cache `kmem_cache_*`, with the RCU footer in memory
-- and `call_rcu` as a parameter. Slob.Heap has the allocator
-- as a whole: the blocks in use, the calls that give and take them, the writes of their users in
-- between, and the states that these reach; its children take the invariant through each call.
-- `slob_lock` makes each locked section one step. Taking a page from a list that it is not on, which
-- `list_del` does not allow, changes nothing. Loops over blocks run on a fuel of 2048, the
-- units of a page, since a page has no more blocks. The loop of `slob_alloc` over pages has its
-- fuel as an argument.
--
-- Sstf: indwriterups/project2/sstf-iosched.c, all callbacks of `elevator_sstf`. The kernel's
-- circular list is the list of its requests from `next` to `prev`; a request is its identity and
-- its first sector, a natural number (`sector_t` does not wrap in a comparison). Sstf.Insert is
-- about `sstf_add_request`, Sstf.Dispatch about one call of `sstf_dispatch`, Sstf.Sweep about
-- repeated calls.
--
-- Philosophers: concur/concurrent2/concurrent2.c. The state has the semaphores, the shared arrays
-- and where each of the five threads stands; `step` is one statement of one thread, so that a list
-- of steps is an interleaving. The reads of `phi[0]` to `phi[4]` are five steps. The printer
-- thread, `sleep` and `rand` are left out, as they write nothing shared. Philosophers.Tests has
-- the run in which a post is lost.
--
-- Dinners: concur/concurrent3/3way.c. Nodes are addresses, `next_dinner` a function on them, 0 is
-- `NULL`; a turn is one round of a thread's loop with its locks held, as one step. Dinners.Chain
-- is about the loops and writes of the list, Dinners.Safe about `add_dinner`, `cancel_dinner` and
-- `find_dinner`, Dinners.Turns about the turns. Dinners.Threads has the threads beside each other
-- with their locks, one statement as a step: Locks is about the locks, Whole says what each thread
-- relies on about the list, Search, Insert and Delete are about a step of each kind, Never about
-- all interleavings, where `random()` stays below a bound: any for the locks, `RAND_MAX` for the
-- list. `random_range` computes with exact quotients in place of doubles, and `dinner_count` is a
-- natural number without an upper bound. The loops
-- run on a fuel that is an argument; a step for each node is enough.
--
-- Buffer: concur/concurrent1/concurrent1.c. The state has the semaphores, the buffer and where the
-- producer and the consumer stand; a step is one statement of one of them, with the value of
-- `rand` as an argument. Buffer.Slots counts full slots, Buffer.Invariant is about all
-- interleavings.
--
-- Barbershop: concur/concurrent4/barbershop.c, one statement of a thread as a step, for any number
-- of customers; an update of `waiting_chair_count` is two steps, a read and a write.
-- Barbershop.Service counts who is served.
--
-- SharedResource: concur/concurrent5/concurrent5A.c, in the same way, but `resource_count--` and
-- `resource_count++`, which no lock protects, are two steps each, a read and a write.
-- SharedResource.Crowd is about how many use the resource at once, SharedResource.Stuck about a
-- customer that waits for good. An unlock by the handler of what a customer has locked, which
-- POSIX leaves undefined, unlocks.
--
-- Ramdsk: indwriterups/project3/ramdsk.c. Memory maps byte addresses to bytes. `fill_sgl`, and
-- `ramdsk_transfer` with the kernel's cipher as a parameter (Ramdsk.Transfer states what its
-- documentation promises, of whole blocks from one range to another that has no byte in common with
-- it); Ramdsk.Bytes has ranges of memory and the ranges a scatter list covers;
-- Ramdsk.Requests is `ramdsk_request`, on a fuel of one step for each piece of a request;
-- Ramdsk.Device has `ramdsk_getgeo`, `ramdsk_init`, `ramdsk_device_init` and `ramdsk_exit`, with
-- the kernel's answers as arguments and its calls as a list of events. Integers of type `int` are
-- natural numbers there, and what `__blk_end_request_all` does with a request is left out.
--
-- Fuzzer: 544final/fuzzer_final/Fuzzy_v_0.5. Fuzzer.Spec is syscall_def.h and syscall_def.c: the
-- table of system calls, whose numbers `SYS_*` are an argument. The rest is sandbox.c:
-- Fuzzer.Sandbox has the state (bytes by address, the calls of `rand`, the pool of descriptors),
-- what comes from outside as a record (the values of `rand`, the address of `sandbox`, the mapped
-- addresses, the entries that `nftw` visits, `makedev`, `syscall`), random strings and paths;
-- Fuzzer.Args is `sandbox_syscall_fuzarg`, Fuzzer.Calls is `sandbox_syscall_fuzargs` and
-- `sandbox_syscall_run`, Fuzzer.Pool `fd_pool_populate` and `find_fd_in_pool`. Fuzzer.Bounds and
-- Fuzzer.Fuzarg are about the bytes that are written, Fuzzer.Rows about the types that can be
-- drawn, Fuzzer.Supported about whole runs, Fuzzer.Modes about the pool. Two calls of `rand` in
-- one expression are made from left to right. The loop of a random path runs on fuel; an empty
-- chunk, for a number that is a multiple of 128, leaves it where it is, so that 1024 steps for each
-- value of a window of numbers are enough, if no window has only such multiples. Fuzzer.Processes is the table of processes of fuzzer.c, with
-- its logs and pid files as lists and the two signal handlers; Fuzzer.Main is `main` in the main
-- process, up to a pass of its loop, with the results of `fork` and `waitpid` as arguments.
-- Fuzzer.Batches has the batches of calls and the rounds of a worker. Fuzzer.Lookup is about
-- `get_proc_desc`, Fuzzer.Starting, Fuzzer.Recovery and Fuzzer.Leaving about the start, a worker
-- that dies, and the end of a process. Fuzzer.Children has a worker up to its loop and the
-- watchdog, each in its own copy of the table.
--
-- Not modelled: `slob_ready` and the tracing of the allocator, `helper_log_fix_str` of fuzzer.c,
-- which nothing calls, and the copy of the Linux scheduler (indwriterups/project1).
pub mod Barbershop
mod Common
pub mod Sstf
pub mod Slob
pub mod Fuzzer
pub mod Philosophers
pub mod Dinners
pub mod Buffer
pub mod Ramdsk
pub mod SharedResource
