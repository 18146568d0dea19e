-- ===== src/Task.antt =====
-- internal/task: the tasks of a device, their queue, and what they set and ask for.
pub mod Model
pub mod Payload
pub mod Queue
pub mod Executor
