-- ===== src/Concurrency.antt =====
-- include/concurrency: futures, the queue, the executor and the input and output.
pub mod Ring
pub mod Future
pub mod Executor
pub mod IoContext
pub mod Notify
pub mod Join
pub mod Task
