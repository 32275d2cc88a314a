-- ===== src/Page.antt =====
-- Kernel/src/mm/page.c, the buddy allocator of physical pages.
pub mod Size
pub mod Buddy
pub mod Request
pub mod Pool
pub mod Expand
pub mod Take
pub mod Split
pub mod Allocate
pub mod Release
pub mod Write
pub mod Cleared
pub mod Lost
mod Tests
mod BlockTests
