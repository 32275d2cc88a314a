-- ===== src/Launch.antt =====
-- Kernel/arch/x86_64/bootx64.c, and the parts of Kernel/ that run before and after it: the
-- processor's features, the frame buffer and the reset.
pub mod Defs
mod Drawn
mod Reset
mod Tests
