-- ===== src/Runtime.antt =====
-- The kernel's own runtime functions, kernel/lib/string.c.
pub mod Bytes
pub mod Cstring
