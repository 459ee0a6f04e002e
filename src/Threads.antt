-- ===== src/Threads.antt =====
-- threads/: the queue that runs the parts of a transfer, and the pools of worker threads.
pub mod ParallelQueue
pub mod Pool
