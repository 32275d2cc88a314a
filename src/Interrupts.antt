-- ===== src/Interrupts.antt =====
-- Kernel/arch/x86_64: the descriptor tables, the interrupt controller and the timer.
pub mod Defs
pub mod Descriptors
pub mod Dispatch
mod Tests
