-- ===== src/Malloc.antt =====
-- Kernel/src/mm/malloc.c: AllocatePages, which joins the page allocator, the marks and the tables.
pub mod Defs
pub mod Single
mod Several
mod Tests
