-- ===== src/Threads.antt =====
-- The directory thread_pool: the pool that executes tasks, and the pool of event loops.
pub mod ThreadPool
pub mod EventLoopThreadPool
