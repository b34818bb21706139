-- ===== src/Mm.antt =====
-- Memory management, kernel/mm.
pub mod Kalloc
pub mod Pte
pub mod Vm
