-- ===== src/Memory.antt =====
-- The modules of the first phase, src/models.py and src/task_queue.py: the task record without a
-- configuration, and the store and the queue inside the process. The packages of the same names
-- stand before them when Python imports.
pub mod Models
pub mod Store
pub mod Queue
