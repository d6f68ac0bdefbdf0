-- ===== src/Lib.antt =====
-- The shared-memory communication library and the two benchmarks of RP-Maksym-Zaveriukha.
--
-- The program. `com_initialize` forks `nr_proc` user processes and one router process. A process writes
-- a message once into its own POSIX segment and then hands the router, through the one mailbox
-- `server_box`, a request for each destination; the router copies the request into the inbox of the
-- destination (`slots[rank]`) and tells the sender; the receiver copies the bytes out of the sender's
-- segment and acknowledges, and the sender may not write its segment again before all acknowledgements
-- are there. rpBenchmark1 sends test patterns from every process to every other one; rpBenchmark2 runs
-- a distributed database: a compute thread asks the other processes in turn, a receiver thread sorts
-- what arrives, and a request handler answers what the receiver puts into a bounded queue.
--
-- Files. `Base` is shared: tests on numbers, lists, `int`s as ℤ, and families with their sums.
--   Com       the data of rpBenchmark2/com.c (SharedState, ProcessSlot, ServerMailbox, the globals of a
--             process) and one module for each group of functions: Com/Region (create_ and
--             destroy_shared_region), Com/Names and Com/Segment (segments and their names), Com/Buffer
--             (com_prepare_send_buffer, com_finish_send_buffer, wait_for_pending_acks), Com/Send,
--             Com/Recv, Com/Router (server_loop), Com/Finalize, Com/Initialize. rpBenchmark1/com.c has
--             the same functions.
--   Net       all processes together: Net/Thread is one thread, which runs com_mcast, com_recv and
--             com_finalize; Net/System interleaves any number of threads and the router; Net/Start is
--             the state that com_initialize leaves; Net/Tokens is the invariant, from the laws of one
--             step in Net/Local and Net/Routing; Net/Safety says what follows in every reachable state.
--             Net/Flow follows the messages: Net/Flow/Facts and Net/Flow/Own are what a thread knows,
--             Net/Flow/Footprint and Net/Flow/Routed what a step may change, Net/Flow/Account the
--             acknowledgements, Net/Flow/Exclusive, Net/Flow/Turn and Net/Flow/Invariant the
--             invariant; Net/Delivery says what follows.
--             Net/Channel is the view of each pair of processes as an abstract queue, and
--             Net/Channel/Refinement says that the steps are those of the queue.
--             Net/Progress is about what a thread waits for, and Net/Sound about what makes a process
--             exit; Net/Sound/Mapping and Net/Sound/Copied are about the mapping of the send buffer.
--             Net/Closing is the count of com_finalize and the end of the router, Net/Destroyed
--             the end of the segments.
--   Db        rpBenchmark2/main.c: Db/Queue (the request queue, and in Db/Queue/Pipe its two threads),
--             Db/Slot (the response slot), Db/Payload, Db/Message, Db/Receiver, Db/Compute (the compute
--             thread and the request handler).
--   Program   the database over the network: what the compute thread and the handler of each process send
--             through the channels (Program/Judged, Program/Outputs, counted by Program/Counts; Program/Said and
--             Program/Finishes are what a finished compute thread has sent), what the receiver has
--             read of it (Program/Arrived), and the state in which it closes its queue
--             (Program/Closing); Program/Patterns is the all-to-all benchmark over the network.
--   AllToAll  rpBenchmark1/main.c: the sender's and the receiver's loops and the test pattern.
--   Stats     elapsed_seconds, the welford functions, and the numbers of the two reports.
--   Args      main, parse_positive_long and parse_size_value of both benchmarks.
--   Tests     the theorems at concrete inputs.
--
-- State and steps. A function that waits is a function of its program point and the state, and returns
-- an `Outcome`: it goes on at another point, returns, waits, or ends the process as the code's exit(1)
-- does. There is one step for each semaphore or mutex operation, together with the plain accesses
-- that follow it up to the next such operation; Net/Safety is about the threads that make such
-- accesses. A semaphore is its value, a rank is a ℤ, a `msg_id` is
-- its 32-bit pattern, and a `size_t` wraps at 2^64 where the code adds. A step that waits is no step.
-- There is no fairness: nothing is said about a step being taken at last. `System.sent` records the
-- calls of com_send and `System.got` the copies of com_recv for the theorems; no step reads them.
--
-- Bounds. The digits of a process id are computed on fuel `pid + 1`, which is enough because each
-- division by 10 makes a number smaller; loops over ranks, requests, messages and directory entries are
-- structural, and loops over semaphores are steps, so they need no fuel. Nothing bounds the number of
-- processes, of threads or of steps.
--
-- Parameters. What `fork` returns is a function from ranks to process ids, what `readdir` lists is a
-- list, and the padding bytes of each header are a record of their own (`Padding`, and `Pads` for the
-- headers of a compute thread); they may be anything. A `double` is any type with
-- the operations of the record `Double`; `IsExact` says that its arithmetic does not round, where a
-- theorem needs it. That process ids are
-- distinct and fit 63 bits is the hypothesis `Pids`, where a theorem needs it.
--
-- Calls. An idle thread may begin com_mcast, com_recv or com_finalize or leave its start routine, with one
-- condition, `MayCall` in Net/System: com_finalize begins only when all other threads of the process
-- have left. Both programs keep to it, since they join their threads before they call com_finalize, and
-- every theorem about reachable states rests on it. So the branch of com_finalize for a send buffer that
-- is still active is modelled, but no reachable state comes to it.
--
-- Undefined behaviour. Where send_response writes past its buffer because `total_size` has wrapped, and
-- where a product of `long`s overflows (total_receives, total_system_requests), the result of the model
-- says so by a value of its own.
--
-- Not modelled. Printing and reading the clock; the rounding of floating-point numbers; creating and
-- joining threads;
-- the layout of the shared region (shared_region_size) and failing system calls, which all end the
-- process with a message; memory allocation. A message that com_recv returns is its bytes.
pub mod Base
pub mod Com
pub mod Net
pub mod Program
pub mod Db
pub mod Args
pub mod Stats
pub mod AllToAll
pub mod Tests
