-- ===== src/Start.antt =====
-- The start of the memory management: LoadVirtualMemory of Kernel/arch/x86_64/paging.c, the loading
-- of zones of Kernel/src/mm/page.c, and MemoryInitialize of Kernel/src/mm/memory.c.
mod Tables
mod Kernel
pub mod Zones
mod Ranges
mod Memory
mod Stats
mod Tests
