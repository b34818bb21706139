-- ===== src/Atomic.antt =====
-- Locks, kernel/atomic.
pub mod Spinlock
pub mod Semaphore
pub mod Sleeplock
