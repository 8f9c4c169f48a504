-- ===== src/Lib.antt =====
-- AZH_lid, a network library in C++: a memory pool with buffers over it, an asynchronous logger, a
-- timer, a wheel of idle timeouts, and a server whose TCP connections run on event loops.
--
-- A connection reads into an InputBuffer and writes from an OutputBuffer; both take their chunks
-- from one MemoryPool, which all threads share. Other threads send by tasks that they queue in the
-- connection's loop. The logger's threads hand records to a writer through a bounded ring, and the
-- timer's loop posts the tasks that are due to a thread pool. The server's Acceptor, in the thread
-- of the base loop, makes connections, gives each to a loop of the pool in turn and registers it
-- in the server's table and with the manager of idle timeouts; a loop takes events from the kernel
-- to the channels of its table.
--
-- Prelude: the names that all modules share; lists over the native numbers, the int and size_t of
--   the program with their wrap-around, Boolean tests.
-- Memory.Chunk: memory/chunk.hpp and memory/chunk.cpp, an array of bytes with its live window.
-- Memory.Pool: memory/memory_pool.hpp and memory/memory_pool.cpp; alloc_chunk, retrieve,
--   preallocate_chunks, clear and the constructor. Sizes and Valid are about the size classes and
--   what the free lists hold, Accounts and Ledger about the accounts, Capacity about the limit.
-- Memory.Buffer: memory/data_buf.hpp and memory/data_buf.cpp; Room is about its allocations, Input
--   about ensure_space_available, Read about read_from_fd, Output about ensure_capacity and
--   write_to_buf, Drain about pop, clear and write_to_fd, Stream about sequences of calls.
-- Logger.LogQueue: logger/log_queue.hpp, the ring; Valid is about its indices, Refine about it as
--   a queue.
-- Logger.Writer: logger/logger.hpp and logger/logger.cpp; Rotation is about the length of the
--   files, Shutdown about the last records.
-- Logger.FileName: logger/logger.cpp, the name that create_new_log_file gives a file, from the
--   names in the directory; stoi and to_string have the standard library's behaviour.
-- Threads.ThreadPool: thread_pool/ThreadPool.hpp, the queue of tasks and its threads; Drain is
--   about the interleavings of their steps.
-- Threads.EventLoopThreadPool: thread_pool/EventLoopThreadPool.hpp and
--   thread_pool/EventLoopThreadPool.cpp; Turns is about the order in which loops are handed out,
--   Life about start and stop.
-- Time.Timer: time/Timer.hpp and time/Timer.cpp; Count, Cancel and Progress are about how often a
--   task is posted. A step of its loop is the part under the lock or the post after it, and other
--   calls may come between.
-- Time.ThreadSafeHashMap: time/ThreadSafeHashMap.hpp; Refine is about it as a function of its
--   keys.
-- Time.ConnectionTimeoutManager: time/ConnectionTimeoutManager.hpp and
--   time/ConnectionTimeoutManager.cpp; Valid and Places are about where entries stand, Moves,
--   Cleanup, Scan and Rounds about what the operations and a round of the wheel do to that,
--   OneRound, Delay and Activity about when an entry is timed out, Table about the table, Runs
--   about sequences of calls.
-- Net.TcpConnection: net/TcpConnection.hpp and net/TcpConnection.cpp, with the mask of
--   net/Channel.cpp and the queued tasks of net/EventLoop.cpp; Life, Handlers and Shutdown are
--   about its states.
-- Net.TcpServer: net/TcpServer.hpp and net/TcpServer.cpp; Close and Stuck are about the close
--   callback, Idle, Conns, Managers and Runs about the idle manager beside the table, Register
--   about the table, Turns about the loops of new connections.
-- Net.Acceptor: net/Acceptor.hpp and net/Acceptor.cpp; Loops, Registered and Descriptors are about
--   what becomes of the connections and their descriptors.
-- Net.EventLoop: net/EventLoop.hpp and net/EventLoop.cpp, with net/Channel.hpp, net/Channel.cpp
--   and net/Epoll.cpp; Watched is about the table beside the kernel's interest list, Tasks about
--   the queue, Dispatch about runs of the loop.
--
-- State is a record, an operation a function from the state to its result and the new state, and
-- an exception or a null pointer a value. A function of the source keeps its name; a block under a
-- lock is one function. What is outside is an argument: the heap (an address, or none for
-- std::bad_alloc), what other threads do to the pool while alloc_chunk does not hold its lock, the
-- answers of read, write, fwrite, accept and epoll_ctl, what a new log file holds, the callbacks,
-- the order of events, and the time. An answer EINTR comes a finite number of times before another
-- one, so that the loops around read and write end. The loops recur on lists and counters; only
-- the digits of a number in a file's name are written with fuel, one more than the number, which
-- is more than its digits. An operation that waits on a condition variable is modelled from the
-- end of its wait.
--
-- Not modelled: the date and the directory in a log file's name, formatting and the console
-- (logger/pr.cpp); the eventfd that wakes a loop, which only ends a wait, and the vector of events
-- that grows; what a thread of EventLoopThreadPool does beside its loop; the setters of the
-- server's callbacks; socket options and addresses. An operation of the manager of idle timeouts
-- is one step of the model, although the code changes an entry under no common lock; likewise no
-- connection is closed while the Acceptor sets it up. Log output inside the modelled functions is
-- left out, but for the line of remove_tcp_conn that takes a lock.
pub mod Prelude
pub mod Memory
pub mod Logger
pub mod Time
pub mod Net
pub mod Threads
