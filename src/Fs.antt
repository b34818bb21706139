-- ===== src/Fs.antt =====
-- File systems, kernel/fs.
pub mod Log
pub mod Bio
pub mod File
pub mod Xv6
