-- ===== src/Kernel.antt =====
-- kernel/thread: the scheduler and the process numbers.
pub mod Thread
pub mod Pid
pub mod Sync
pub mod Memory
