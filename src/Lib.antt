-- ===== src/Lib.antt =====
-- The core of alpaka, a header-only library for parallel kernels on several accelerators: the vectors of
-- extents, the maps between linear and multi-dimensional indices, the nested loops, the division of a grid
-- of elements into blocks, threads and elements, the atomic operations, the barrier of the threads of a
-- block, its shared memory, the thread pool behind the queues of the CPU device, its events, the callback
-- thread, the copies, fills and views of its memory, and the Philox generator of random numbers.
--
-- How the parts interact: `getValidWorkDiv` takes the maxima of a device and an extent of elements, both
-- vectors, and returns a work division; `isValidWorkDiv` tests one; a kernel then finds its work by
-- mapping its linear index into the extents, and a buffer finds an element by mapping the index by its
-- pitches. On the CPU the blocks are visited by `ndLoopIncIdx`, the threads of a block meet at a barrier
-- and share data by atomic operations, and a queue hands its tasks to a pool with one worker. To mark an
-- event is such a task, and so is to make a queue wait for an event of another queue; a host thread waits
-- on the future of the event's last task. A copy or a fill of several dimensions is an `ndLoop` over the
-- extent without its last dimension, whose offsets are products with the pitches of the views.
--
-- Which file models what (paths from the root of the repository):
--   Base, Base/*          Boolean tests, lists over the native numbers, arithmetic modulo 2 ^ w
--   Vec, Vec/*            include/alpaka/vec/Vec.hpp, vec/Traits.hpp, meta/Fold.hpp,
--                         meta/Functional.hpp. Fold: `all`, `zeros`, `ones`, `operator[]`, `foldrAll`,
--                         `prod`, `sum`, `min`, `max`. Select: `minElem`, `maxElem`. Elementwise: the
--                         operators, `elementwise_min`, `elementwise_max`, `castVec`. Rearrange:
--                         `subVecBegin`, `subVecEnd`, `reverseVec`, `concatVec`
--   MapIdx, MapIdx/*      include/alpaka/idx/MapIdx.hpp. Extent: `mapIdx` between one and several
--                         dimensions. Pitch: `mapIdxPitchBytes`. Dispatch: the choice of the
--                         specialization. Spec: row-major positions as mathematics
--   WorkDiv, WorkDiv/*    include/alpaka/workdiv/WorkDivHelpers.hpp, workdiv/WorkDivMembers.hpp,
--                         acc/AccDevProps.hpp. Types: the records. Divisors:
--                         `nextDivisorLowerOrEqual`, `allDivisorsLessOrEqual`. Valid:
--                         `isValidAccDevProps`, `isValidWorkDiv`. Clip: the two clipping loops. Equal:
--                         the common divisor. Subdivide: `subDivideGridElems`, `getValidWorkDiv`
--   Kernel, Kernel/*      include/alpaka/kernel/TaskKernelCpuSerial.hpp, kernel/TaskKernelCpuTbbBlocks.hpp. Idx:
--                         `getWorkDiv` of workdiv/Traits.hpp, `getIdx` and `getIdxThreadFirstElem` of
--                         idx/Accessors.hpp
--   NdLoop, NdLoop/*      include/alpaka/meta/NdLoop.hpp: `ndLoop`, `ndLoopIncIdx`
--   Atomic, Atomic/*      Op: include/alpaka/atomic/Op.hpp. Ref: the loops over compare_exchange_weak of
--                         atomic/AtomicAtomicRef.hpp
--   Barrier, Barrier/*    include/alpaka/core/BarrierThread.hpp: `BarrierThread::wait`, step by step. Predicate:
--                         `BarrierThreadWithPredicate::wait` with the operations of block/sync/Traits.hpp
--   ExecPool, ExecPool/*  include/alpaka/core/ConcurrentExecPool.hpp: `enqueueTask`, `isIdle`, `detach`,
--                         `concurrentExecFn`, the notifications and the destructor, step by step
--   SharedMem, SharedMem/*
--                         include/alpaka/block/shared/st/detail/BlockSharedMemStMemberImpl.hpp: `alloc`,
--                         `getVarPtr`. Dyn: block/shared/dyn/BlockSharedMemDynMember.hpp
--   Callback, Callback/*  include/alpaka/core/CallbackThread.hpp: `submit`, the worker, the destructor
--   Event, Event/*        include/alpaka/event/EventGenericThreads.hpp,
--                         queue/QueueGenericThreadsNonBlocking.hpp: `enqueue` of an event, `isReady`,
--                         `wait` of the host, and a queue that waits for an event. A queue's worker takes
--                         turns; its sleep and the end of its pool are in ExecPool
--   Mem, Mem/*            include/alpaka/mem/buf/cpu/Copy.hpp, mem/buf/cpu/Set.hpp,
--                         mem/view/ViewSubView.hpp. Copy: `TaskCopyCpu`. Fill: `TaskSetCpu`. SubView:
--                         the checks and the pointer of a view into a view
--   Philox, Philox/*      include/alpaka/rand/Philox. Stateless: PhiloxStateless.hpp, the rounds and the
--                         keys. Counting: PhiloxStateless's counter, the `advanceCounter` and `skip`
--                         functions. Single: PhiloxSingle.hpp. Vector: PhiloxVector.hpp
--   Tally                 sums of a weight over the threads or workers
--   Tests, Tests/*        runs at concrete inputs
--
-- A Vec is the list of its components, dimension 0 first; the dimension is its length, and where the
-- code asks for vectors of one dimension the theorems have equal lengths as a hypothesis. The index type
-- is an unsigned type of `w` bits: sums, products and differences are reduced modulo 2 ^ w where the code
-- computes them, and the theorems say which products must not wrap. The division and the root on doubles
-- are a parameter, `Doubles`; the theorems use that the quotient of integers below 2 ^ 53 is rounded up
-- exactly.
--
-- The loops over dimensions are structural recursions. The clipping loops have fuel, the sum of the
-- extents plus one: each round makes the sum smaller, and the theorems on `clip_close_to_equal` and
-- `clip_unrestricted` include that this fuel is enough. A failed assertion, undefined behaviour and
-- a lack of fuel are the values of `Fault`, or `none`.
--
-- Concurrent code is a function that makes the next step of one thread, and a schedule, the list of who
-- steps next; the theorems are about all schedules. A step is one access to what the threads share, or what
-- is done under one lock. A thread that sleeps on a condition variable goes on when it is notified, or when it
-- wakes up without a reason, which is a step of its own. An atomic loop meets a list of attempts in place of the other threads. The theorem
-- on `isIdle` takes less than 2 ^ 32 steps, so that the 32-bit counter of active tasks does not wrap; those
-- on events take less than 2 ^ 64 steps, for the event's 64-bit counter.
--
-- A kernel is what it does for a block: the list of its accesses, each to the shared variables of the block and
-- to all the rest. TBB's `parallel_for` is the schedule of the accesses of its calls: it makes one call for
-- each number, in any order and at the same time.
--
-- Memory is a function from addresses to bytes, and one width w stands for the index types of the extents,
-- the pitches and the views. The number of Philox's rounds, which the code fixes as a template parameter,
-- is an argument.
--
-- Not modelled: the back-ends that wrap a vendor's runtime or a compiler's offloading, floating-point
-- mathematics, computation on C++ types, and the operating system's threads and clocks.
pub mod Base
pub mod Tally
pub mod Vec
pub mod MapIdx
pub mod NdLoop
pub mod WorkDiv
pub mod Atomic
pub mod Barrier
pub mod ExecPool
pub mod SharedMem
pub mod Callback
pub mod Mem
pub mod Event
pub mod Philox
pub mod Kernel
pub mod Tests
