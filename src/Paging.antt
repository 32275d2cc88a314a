-- ===== src/Paging.antt =====
-- Kernel/arch/x86_64/paging.c.
pub mod Tables
pub mod Mapping
pub mod Marks
pub mod Used
pub mod First
pub mod Runs
pub mod Several
mod Skips
pub mod Clashes
mod Tests
