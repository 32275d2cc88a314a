-- ===== src/Slab.antt =====
-- Kernel/src/mm/slub.c: the allocator of small objects.
pub mod Defs
pub mod Allocate
pub mod Sizes
mod Objects
mod Taken
mod Runs
mod Fresh
mod Tests
