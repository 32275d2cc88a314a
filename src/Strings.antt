-- ===== src/Strings.antt =====
-- Kernel/src/string.c, and memset, memcpy and memcmp of Kernel/src/mm/memory.c.
pub mod Defs
pub mod Text
pub mod Copy
pub mod Compare
pub mod Ranges
mod Tests
