-- ===== src/ThreadPool.antt =====
-- include/thread_pool.h and src/thread_pool.c: the task queue and the bookkeeping of worker threads.
pub mod Queue
pub mod Fifo
pub mod Growth
pub mod Pool
pub mod Workers
mod Examples
