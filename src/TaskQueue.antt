-- ===== src/TaskQueue.antt =====
-- src/task_queue/: the Redis store of tasks and the Redis queue.
pub mod Keys
pub mod Digest
pub mod Store
pub mod Queue
