-- ===== src/LinkedList.antt =====
-- Kernel/src/utils/list.c.
pub mod Defs
pub mod Chain
pub mod Append
pub mod Remove
mod Tests
