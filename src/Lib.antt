-- ===== src/Lib.antt =====
-- CPP-Concurrency-Toolbox: four bounded queues for one producer, a thread pool, and the clock and the
-- recorder that its benchmarks measure with.
--
-- Parts, with the file that models each (paths from the repository's root)
--
-- - Capacity: the three functions check_and_round_capacity of include/SPMCLockFreeQueue.h,
--   include/SPMCBroadcastQueue.h and include/SPMCOverwriteQueue.h with the std::bit_ceil that they
--   call, and the std::has_single_bit by which include/SPSCLockFreeQueue.h tests its capacity. The
--   constructors of the queues call them.
-- - Fifo: no code of its own. It is what a bounded queue promises to a caller, as a list and as an
--   interface; Spsc and Spmc implement it, and Fifo.Client carries a run of calls over to the list.
-- - Spsc: SPSCQueue of include/SPSCLockFreeQueue.h. Spsc has the constructor, try_emplace and try_pop as
--   one caller sees them, Spsc.Steps the accesses of the producer and the consumer one at a time.
-- - Spmc: SPMCQueue of include/SPMCLockFreeQueue.h. Spmc has the constructor, the destructor,
--   try_emplace, try_pop, try_pop_expected, size_approx and empty; Spmc.Steps has the accesses of the
--   producer (try_emplace, emplace_wait) and of any number of consumers (try_pop, pop_wait), and
--   Spmc.Parking adds the threads that std::atomic::wait puts to sleep and that notify_all and
--   notify_one wake. Spmc.Solo runs the steps of one thread alone. size_approx makes two loads, and
--   takes the queue as each of them finds it.
-- - Broadcast: SPMCBroadcastQueue of include/SPMCBroadcastQueue.h. Broadcast has try_publish with its
--   cached minimum, try_copy and backlog_approx; Broadcast.Steps the accesses of the producer and of
--   each of the N consumers; Broadcast.Naive the version of try_publish without a cache that the
--   comment in its body describes.
-- - Overwrite: SPMCOverwriteQueue of include/SPMCOverwriteQueue.h. Overwrite has lapped_to and the tests
--   of try_read; Overwrite.Steps the accesses of publish and try_read, with the payload copied byte by
--   byte; Overwrite.Alone publish and try_read as whole calls, and Overwrite.Alone.Solo and
--   Overwrite.Alone.Calls the steps of one thread alone.
-- - Pool: ThreadPool of include/ThreadPool.h, as the steps of the workers, of the threads in enqueue and
--   of the destructor, around one mutex and one condition variable; Pool.Draining singles out the steps
--   that end what has begun. It uses none of the queues.
-- - Clock: benchmark/TscClock.hpp. Recorder: benchmark/LatencyRecorder.hpp. Bench: run_benchmark of
--   benchmark/BenchmarkMain.cpp, over a queue that keeps the promise of Fifo.
-- - Base: lists, arrays, the wrap-around of size_t and remainders, which the parts share.
--
-- How state and steps correspond to the code
--
-- A record holds the members of a class. An array is a function from indices to cells. For the threads
-- there is a data type of places in the code with the locals that live there, a relation with a
-- constructor for each access to shared memory, and a relation Reach of the states that any
-- interleaving leads to. Histories (log, got, handed, started, finished) are in the states for the
-- theorems to speak of and nothing that a step does depends on them. size_t has 64 bits and wraps
-- (wrap, sub_size).
--
-- Bounds and fuel
--
-- The theorems on the threads of Spmc, Broadcast and Overwrite, and those of Overwrite.Alone, are for
-- fewer than 2 ^ 63 elements, less a capacity or one or two as each states; the positions do not wrap
-- there. Those on one caller of Spmc hold at every position, the wrap at 2 ^ 64 included. The capacity
-- of SPSCQueue is at most 2 ^ 63. double_until runs for 64 rounds, which reach every size_t that the
-- checks let through. The loop of try_pop runs once for each failure without cause of
-- compare_exchange_weak, a list that is an argument.
--
-- What is assumed and what is not modelled
--
-- Atomics and fences are taken as sequentially consistent: the memory orders themselves are not
-- modelled. The constructor of an element may throw, as may fn in try_consume and the push in enqueue;
-- in Overwrite.Steps and in the functions for one caller of Spsc, Spmc and Broadcast it does not. fn
-- in try_consume may look at its reference any number of times before it returns or throws. Moves
-- and assignments do not throw. operator new gives room for all the slots of SPMCQueue, so that
-- capacity * sizeof(Slot<T>) is below 2 ^ 64 (Spmc.allocation_size is what the code asks for).
-- In Spmc.Steps std::atomic::wait may return at any time; in Spmc.Parking it returns when the value has
-- changed, and notify_one may wake any of the threads that wait. memcpy goes from the first byte to
-- the last. No thread is in enqueue once the destructor of ThreadPool has
-- begun. The future of enqueue, what a worker prints for a task that throws, the printing of reports,
-- floating point (its results are arguments), the other drivers under benchmark/, the tests and the
-- scripts are not modelled.
pub mod Base
pub mod Capacity
pub mod Fifo
pub mod Spsc
pub mod Spmc
pub mod Pool
pub mod Overwrite
pub mod Broadcast
pub mod Clock
pub mod Recorder
pub mod Bench
