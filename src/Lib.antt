-- ===== src/Lib.antt =====
-- RACoherence: release-acquire coherence in software for CXL memory that several nodes share without
-- hardware coherence (NHC memory). This library models the protocol of include/ and src/ and proves
-- what its parts promise to each other.
--
-- How the parts interact. A thread (ThreadOps) records each cache line that it stores to in a table of
-- packed groups of lines (LocalClTable, ClGroup). At a release, or when the table is full, it takes a
-- free log from its node's log manager (LogManager, whose free list is SpmcQueue), copies the table
-- into it, writes the lines back, and publishes the log; the position of the log, plus one, is the
-- release clock, which goes into the thread's vector clock (VectorClock). A thread that acquires a
-- clock reads the logs of the other nodes up to it, drops its node's copies of their lines
-- (CacheInfo), and merges the clock. A cache agent reads logs in the background.
--
-- Files:
--   Prelude           shared names, lists, counting, and the lemmas on bits of words
--   Config            include/config.hpp at its default values
--   VectorClock       include/vectorClock.hpp
--   ClGroup           include/clGroup.hpp: encodings, coalescing, the two iterations
--   LocalClTable      include/localCLTable.hpp: Covers says which lines a table stands for, Home which
--                     tables have room for a group
--   SpmcQueue         include/spmcQueue.hpp against a bounded FIFO
--   LogManager        include/logManager.hpp; System interleaves the calls of producers and readers as
--                     steps, Defs and Invariant hold the invariant, Correct what follows from it
--   CacheInfo         include/cacheInfo.hpp, the cache instructions of include/flushUtils.hpp as a list
--   ThreadOps         include/threadOps.hpp; Store and RangeStore are the stores, Publish and Release what
--                     makes them known, Coherence what an acquire then sees; Consume is help_consume,
--                     wait_for_consume and the loop of src/cacheAgent.cpp
--   ClTracker         include/clTracker.hpp, the tracker of lines to invalidate lazily; Lines and Masks
--                     are about one line and one leaf, RangeLeaf and RangeLoop about a range
--   ExtentPool        include/extentPool.hpp
--   CxlSync           include/cxlSync.hpp: CXLAtomic and the locks over the thread operations, and
--                     CXLBarrier as steps of its threads (Barrier); CXLRelaxedMutex (Relaxed); what a
--                     release hands over to an acquire through a CXLMutex (Handover) and a
--                     CXLAtomic (Atomic)
--   McsLock           include/mcsLock.hpp: MCSLock as steps of its calls, an atomic access each (System,
--                     Invariant, Correct, Progress), and MCSSharedLock (Shared) and UniqueLock
--                     (Unique) over them
--   Runtime           include/runtime.hpp and src/runtime.cpp: threads, subscriptions, the layout of the
--                     buffers, the instrumented loads and stores
--   CxlMalloc         src/cxlMalloc.cpp: how the memory is divided, and the extent hooks of the build
--                     with jemalloc (Hooks)
--   InstrumentLib     src/instrumentLib.cpp: memcpy, memmove, memset, bzero, strcpy, read; Copy is about
--                     the bytes, Logged about the lines that are published
--   LazyBuild         the build without EAGER_INVALIDATE: process_log of include/cacheInfo.hpp, RACLOAD and
--                     RACSTORE of include/runtime.hpp over the tracker
--   Microbench        include/microbench.hpp and src/microbench.cpp: the workloads and the loop
--   NumaUtils         find_cpu_on_numa of include/numaUtils.hpp
--   Tests and the modules of that name    concrete runs
--
-- How the code is read. The build is the default one, but for LazyBuild and CxlMalloc.Hooks:
-- LOCAL_CL_TABLE, INLINE_CACHING, EAGER_INVALIDATE and CONSUME_HELPING on; EAGER_WRITEBACK,
-- DELAY_PUBLISH, LOCAL_CL_TABLE_BUFFER and PROTOCOL_OFF off.
-- A pointer to a log is the number of its buffer, an array is a function of its index, and a 64-bit or
-- 32-bit operation keeps its wrap-around as `%`. Every call is made whole, except that the fetch_add
-- of produce_tail is a step of its own, so that positions are published out of order, that each atomic
-- access of an MCSLock is a step, and each call on an atomic of a CXLBarrier. Memory orders are not
-- modelled: a step sees the steps before it. The bytes of memory are a function of the address. The
-- functions of the C library that src/instrumentLib.cpp replaces are parameters, found or not, and so
-- are sizeof(GlobalMeta), mimalloc's size of an arena's metadata, rand() and numa_node_of_cpu.
--
-- Bounds and fuel. A loop is on fuel where its end is not in its arguments. The two range iterations
-- have one more than the groups (GROUP_LEN_MAX) or the bits (64) that they visit at most. perform_gc
-- has LOG_COUNT + 1, since it frees at most LOG_COUNT logs; a queue call has 1, since with one call at
-- a time its loop is left in its first round. The loop of help_consume has a fuel argument, to be more
-- than the logs up to the target. The loops of memcpy, memmove, memset and bzero have a fuel argument,
-- to be more than the bytes; those of the range flushes have three rounds more than the lines that fit
-- in the range. A range store of few groups ends in two passes. A CXLBarrier has at most 128 threads,
-- since its count goes through a `char`. HasRoom keeps 256 positions between the tail and the wrap of
-- the 32-bit index, which perform_gc does not handle.
--
-- Uses that the code does not check. The steps of LogManager.System and of McsLock.Unique are those of
-- the code, with no guard that it does not have; Calm says of a run of the former that its calls had
-- room before the wrap and that add_subscriber was called with no position claimed and unpublished, and
-- Disciplined of a run of the latter that a UniqueLock was locked while unlocked and unlocked while
-- locked. The theorems that need them take them as hypotheses.
--
-- Not modelled: include/clhLock.hpp and include/clh_rwlock.hpp (another project's locks, included
-- nowhere), the calls of the allocators in src/cxlMalloc.cpp, the mapping of memory and the system
-- calls of src/runtime.cpp and of src/benchMain.cpp, logging and statistics.
pub mod NumaUtils
pub mod Prelude
pub mod Config
pub mod VectorClock
pub mod ClGroup
pub mod LazyBuild
pub mod LocalClTable
pub mod SpmcQueue
pub mod LogManager
pub mod McsLock
pub mod Microbench
pub mod CacheInfo
pub mod ClTracker
pub mod ExtentPool
pub mod ThreadOps
pub mod CxlSync
pub mod Runtime
pub mod InstrumentLib
pub mod CxlMalloc
pub mod Tests
