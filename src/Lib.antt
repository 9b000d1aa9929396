-- ===== src/Lib.antt =====
-- A verification library for TQLib: task queues for C++ (the public interface under api/task_queue/)
-- over a base library of threads, sockets, addresses, numbers, text and containers (rtc_base/).
--
-- The parts of the program and how they meet. A client posts tasks to a task queue, at once or
-- with a delay. On a platform with neither libevent nor Grand Central Dispatch the queue is
-- TaskQueueStdlib: a worker thread that takes tasks from two queues under one lock, sleeps on an
-- event, and is woken by whoever posts. Its sleep is rounded to milliseconds by the helper for
-- rounded division. An older kind of queue is rtc::Thread: a thread with a queue of messages, of which
-- the delayed ones move to the others when their time comes, and which waits in a socket server. Beside
-- the queues stand a task that posts itself again, the server of sockets that rtc::Thread waits in, and
-- the parts that networking code shares: IP and socket addresses with their order, prefixes, masks and
-- text, sorted containers, hexadecimal and tokenized text, dates, numbers that wrap, with the sequence
-- numbers built on them, and statistics over a stream of samples. The queues use none of the latter.
-- Where libevent is at hand, the queue is TaskQueueLibevent, which a pipe wakes up.
--
-- Files and the code they model (paths from the repository's root):
-- - TaskQueue: rtc_base/task_queue_stdlib.cc. The record TaskQueue has the fields that the lock
--   guards; post_task, post_delayed_task, request_quit and get_next_task are the locked parts of
--   PostTask, PostDelayedTask, Delete and GetNextTask. TaskQueue/Process has the loop of
--   ProcessTasks on fuel, where the fuel counts its rounds: more rounds than there are queued tasks
--   are enough when the tasks post nothing. TaskQueue/Worker has the threads as the steps of one
--   system, without a bound on its runs: each locked part is one step, since the lock makes it so,
--   and the call of NotifyWake after the lock is released is a step of its own. The order counter is
--   a uint64_t; a post is a step while it is below its greatest value.
-- - Thread: the message queue of rtc_base/thread.cc and thread.h. The record Thread has the fields of
--   the queue; post_task, post_delayed_task, set_stop, pull and get are PostTask, PostDelayedTask,
--   Quit with Restart, the locked part of Get, and Get. The rounds of Get's loop are a list: each
--   says what other threads do to the queue before Get reads the stop flag and during the wait,
--   whether the wait of the socket server succeeds, and when it is over, which depends on when it starts
--   and how long it is to be, and may be never; then, and at the end of the list, Get is still waiting.
-- - PipeQueue: rtc_base/task_queue_libevent.cc, whose thread waits in libevent and is woken by bytes in
--   a pipe. The threads are the steps of one system, as in TaskQueue/Worker; libevent calls OnWakeup when
--   the pipe has a byte. Delete's wait for the thread and the timers of delayed tasks are left out.
-- - RepeatingTask: rtc_base/task_utils/repeating_task.cc with the flag of
--   api/task_queue/pending_task_safety_flag.cc. Of the queue it takes that a task starts no sooner than
--   it is due; what the closure returns, whether it stops the task and how long it takes are free.
-- - EpollServer: the dispatchers of rtc_base/physical_socket_server.cc, with epoll. epoll_ctl is a record
--   of functions whose laws are those of its manual, and any call of it may fail; the server's history
--   says for which descriptors one has. The counter of the keys is a uint64_t that wraps around. A dispatcher stands for its descriptor too. The
--   calls of the sockets themselves, the timeout of WaitEpoll, and select and poll are left out.
-- - SendGraph: ThreadManager's graph of the blocking calls between threads, in rtc_base/thread.cc. The
--   fuel of its loop counts the rounds; in a graph without cycles some number of them is enough.
-- - FlatTree: rtc_base/containers/flat_tree.h, with the algorithms of the standard library that it
--   calls in FlatTree/Algorithms. The comparator and the key of a value are parameters; the theorems
--   ask for a strict weak order. FlatTree/Run has any sequence of changes.
-- - FlatMap: rtc_base/containers/flat_map.h, over FlatTree.
-- - DivideRound: rtc_base/numerics/divide_round.h.
-- - SeqNum: rtc_base/numerics/mod_ops.h and rtc_base/numerics/sequence_number_util.h, for an unsigned
--   type of any width, with the wrap-around of that width written out.
-- - Histogram: rtc_base/numerics/histogram_percentile_counter.cc. The float that GetPercentile
--   computes from the fraction is a parameter, as the number of elements to pass over.
-- - MovingAverage: rtc_base/numerics/moving_average.cc, with the conversions of its sum to an unsigned
--   number and of the quotient to an int written out.
-- - MovingMax: rtc_base/numerics/moving_max_counter.h, for any type of samples with a `<=`.
-- - Percentile: PercentileFilter of rtc_base/numerics/percentile_filter.h, for exact integers; the
--   position that it computes in floating point from the size is a parameter. Percentile/Moving is
--   rtc_base/numerics/moving_percentile_filter.h over it.
-- - HexCode: the hexadecimal coding of rtc_base/string_encode.cc.
-- - Tokenize: tokenize, tokenize_first, split and the text of Booleans, of the same file.
-- - IpAddress: rtc_base/ip_address.cc and ip_address.h; an address is its family and its bytes in
--   network order. IpAddress/Text has their text, with the system's functions as a record.
-- - SocketAddress: rtc_base/socket_address.cc. The system's structures are records with their fields in
--   network order; SocketAddress/Text prints and parses, over the same record of system functions, and
--   has the append of rtc_base/strings/string_builder.cc into its buffer of 1024 characters.
-- - WrapAround: TimestampWrapAroundHandler of rtc_base/time_utils.cc.
-- - CivilTime: TmToSeconds of the same file; the fields of tm are exact integers.
-- - Prelude: what these share: lists measured by native numbers, tests, and integers.
-- Each component's folder has a module Examples with runs at concrete inputs.
--
-- Times are exact integers: where the source adds and subtracts int64_t times its values stay far
-- from the ends of the type. The platform's threads, mutexes and events are not modelled beyond what
-- the steps of TaskQueue/Worker and PipeQueue and the rounds of Thread say of them. Not modelled are,
-- of the modelled files, the hashes of addresses and interface addresses, the timers of the libevent
-- queue, the dispatch of rtc::Thread and the handshake of its blocking calls, the constructors and
-- comparisons of flat_tree, and the text of numbers, which is the C library's. Left out are floating
-- point, the other implementations of the task queue, the system's sockets, logging and tracing, and
-- copies of other libraries (rtc_base/third_party).
pub mod CivilTime
pub mod DivideRound
pub mod EpollServer
pub mod FlatMap
pub mod FlatTree
pub mod HexCode
pub mod Histogram
pub mod IpAddress
pub mod MovingAverage
pub mod MovingMax
pub mod Percentile
pub mod PipeQueue
pub mod Prelude
pub mod RepeatingTask
pub mod SendGraph
pub mod SeqNum
pub mod SocketAddress
pub mod TaskQueue
pub mod Thread
pub mod Tokenize
pub mod WrapAround
