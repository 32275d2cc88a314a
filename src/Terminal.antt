-- ===== src/Terminal.antt =====
-- Kernel/src/graphic/terminal.c.
pub mod Defs
pub mod Scroll
pub mod Screen
pub mod Lines
mod Tests
