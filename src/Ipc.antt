-- ===== src/Ipc.antt =====
-- Communication between processes, kernel/ipc.
pub mod Pipe
pub mod Sigset
pub mod Signal
