-- ===== src/Boot.antt =====
-- Kernel/arch/x86_64/bootx64.h: what the loader's tags say of the machine.
pub mod Defs
mod Map
mod Tags
mod Tests
