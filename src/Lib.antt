-- ===== src/Lib.antt =====
-- A model of cmpth-rs, a user-level threading library: the parts of its work-stealing runtime that
-- decide what runs, who waits and who is woken, with the theorems that make them correct.
--
-- How the parts interact. A worker takes tasks from its own run queue, steals from others in the
-- order of its steal policy, and looks at the external queue last. One that finds nothing asks its
-- idle policy, which searches on, runs the duties that are half due, or parks; whoever publishes
-- work tells the idle policies of the others. Task descriptors come from a pool and return to the
-- worker that allocated them, stacks from the operating system or the allocator. The join handle
-- and the exiting task meet in one word of the descriptor, where a joiner or a waker waits; a waker
-- moves the wake state of a polled task and, if it finds the task parked, claims its token and
-- schedules it, or hands it to the worker through a pointer slot. Tasks suspend in locks and
-- barriers, which keep them in queues of their own. Calls of a delegator queue up behind the thread
-- that holds it, which runs their requests and wakes the callers, or passes the lock to one that
-- asked for it. Threads that must not wait post marks, which a server collects under a lock, or a
-- duty at its deadline.
--
-- Files and code:
--   Prelude      names passed on, tables with one changed entry, sums over threads, lists without
--                repetition, Boolean tests, `min`, `max`. Prelude/Bits are `&`, `|` and `!` on
--                words of 64 bits, for tags and masks
--   RunQueue     src/resumable/common/deque.rs: `HybridRunQueue`, its stealer, `SpinRunQueue`.
--                RunQueue/Contract is the interface of src/traits/component/run_queue.rs; what
--                crossbeam's deque does is the parameter `LifoDeque` there, with its documented
--                behaviour as laws. RunQueue/History counts items over a sequence of calls.
--                RunQueue/Flag takes `Deferred` at each access to its flag and its list.
--   Steal        src/resumable/common/steal.rs: the sweep and the three policies; the victims'
--                answers are a function of the victim
--   Worker       src/resumable/common/worker_core.rs and dispatch.rs: the default order of the
--                sources of tasks, and the workers of a pool, a round of `idle_loop` or a
--                `try_run_one` at a time. The run queue is the interface of RunQueue/Contract, the
--                idle policy a record (`SpinIdle` is an instance), the victims are asked by
--                `RandomSweepSteal`. What a task does to its worker's queue is given by the tasks
--                that it spawns and those that it defers
--   Idle         src/resumable/common/idle.rs: `ParkIdle` with `FutexWait`, as a step relation over
--                workers, producers and the caller of `shutdown`, at each access to `sleepers`,
--                `epoch` and `finished`; a worker that reads `finished` as set leaves its loop.
--                Idle/Search: `SearchIdle`, the count of searchers at each access to `searching`,
--                and the rounds of one worker, in calls that may park and in calls for a worker
--                that is kept awake (`retry`)
--   Duty         src/duty.rs: a duty (`Inner`), its due times, back-off and touches. Duty/Registry
--                is the registry: registering, replanning, a round of the keeper, the idle hook,
--                the timed worker. What `poll` and the clock answer, and the deadline that a poll
--                leaves, are arguments
--   Timers       src/duty.rs: `Sleep` and `fire_timers`, the poll of the timer duty, whose deadline
--                `run` clears before it polls
--   Pool         src/resumable/common/pool.rs: `node_take` and `node_give` on a heap of nodes.
--                Pool/Return is `ReturnPool` on them, Pool/Block `BlockPool` and `ThresholdPool`,
--                Pool/Simple `SimplePool`; Pool/View are the lists that the heap stands for, and
--                Pool/Drop is `drop_all_nodes` and the drop of `ReturnPool`
--   Stack        src/resumable/common/stack.rs: `HeapStack`, `MallocFrame`, rounding to pages. The
--                calls of the operating system and the allocator are the parameter `Os`;
--                Stack/Memory states what is documented of them
--   Desc         src/resumable/common/desc.rs and src/resumable/stackless/desc.rs: the word
--                `join_state`. Desc/Word is its encoding, Desc/Loop the loops of the calls,
--                Desc/Join the task and the calls of its handle as a step relation, at each access
--                to the word
--   Waker        src/resumable/common/waker.rs, src/resumable/stackless/desc.rs and worker.rs: the
--                wake state. Waker/Polling is a step relation over the poller and the wakers, at
--                each access to the word
--   Interchange  src/interchange.rs: the tagged pointer slot
--   Post         src/post.rs: the delegator with a table of slots. Post/Queue is the delegator that
--                lists the slots that posted, as a step relation over producers, the server and the
--                duty that serves at a deadline; what the consumer was handed is a list
--   External     src/resumable/common/external_queue.rs: `StealPathQueue`, at each access to its
--                flag and its list
--   Spin         src/spin.rs: the spin lock, at each access to `locked`
--   Sync         Sync/Mcs: src/resumable/stackful/sync/mcs_mutex.rs, whose algorithm is also that
--                of src/resumable/common/sync/dual_mutex.rs, at each access to `tail` and `next`.
--                Sync/Blocking and Sync/Condvar: `Mutex` and `Condvar` of
--                src/resumable/stackful/sync/mutex.rs, at each critical section; `McsCondvar` of
--                mcs_mutex.rs is the same code. Sync/Combining:
--                src/resumable/stackful/sync/combining_delegator.rs, at each access to `tail` and
--                `next`, with the notifications of src/traits/component/delegation.rs; calls are
--                answered at once, deferred, or completed later. Sync/Barrier:
--                src/resumable/stackful/sync/barrier.rs and
--                src/resumable/common/sync/dual_barrier.rs, one arrival at a time
--
-- State and operations. A struct is a record of the fields that decide what the code does, a map or
-- an array of per-thread entries is a function, a node or a duty is a number. An operation that
-- runs under a lock is a function from state to state; code that interleaves is a step relation
-- whose steps are the accesses to shared memory, and a theorem about it is about all reachable
-- states. `none` as a result of a pool operation stands for a null pointer that is dereferenced, of
-- a pool's drop for a node that is not live, or for too little fuel; `fault` in a lock for a store
-- into a node that was freed, or the resumption of a thread that does not wait; `panicked` of a
-- stack operation for a failed assertion. Pointers are words of 64 bits; what an operation does
-- beside its access to a word (resume, wake, free, give back) is a list of effects.
--
-- Assumptions and bounds. Steps are interleaved sequentially: reorderings that the memory orderings
-- in the source allow are not modelled. A futex wait compares and queues in one step and may end at
-- any time. `epoch` wraps at 2^32 as in the source; the theorems about parking are for runs with
-- fewer than 2^32 additions to it. Times are `u64` nanoseconds and saturate where the source
-- saturates; the rounds of `SpinIdle` wrap at 2^32, other counters are not bounded. The allocator
-- answers with an address that is not a live box. Only the drop of a pool takes fuel, a bound on
-- the length of each list that it walks, for which the longest list is enough. The other loops run
-- over a list or a count, and a `compare_exchange` loop over the words that its turns meet. Busy
-- waiting is a step that changes nothing.
--
-- Not modelled: context switches (assembly, raw memory); the workers' part that owns descriptors
-- (worker.rs), the delegators with a consumer thread, and the front ends for scoped, stackful and
-- stackless tasks, which compose the parts above through generics; operating system bindings and
-- macros; tests and benchmarks. Also left out are a poll that hands over to another task
-- (`ReadyAndContinue`), `CondvarWait` and the wake-ups of `SearchIdle` among the idle policies, the
-- duties and yields of `SpinIdle`, the queue that a polling task drains (`PollerUltQueue`), and the
-- drops of `SimplePool` and `BlockPool`.
pub mod Desc
pub mod Duty
pub mod External
pub mod Idle
pub mod Interchange
pub mod Pool
pub mod Post
pub mod Prelude
pub mod RunQueue
pub mod Spin
pub mod Stack
pub mod Steal
pub mod Sync
pub mod Timers
pub mod Waker
pub mod Worker
