-- ===== src/Lock.antt =====
-- Kernel/include/utils/spinlock.h on several processors.
mod Defs
mod Exclusion
mod Tests
