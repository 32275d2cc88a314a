-- ===== src/Apic.antt =====
-- Kernel/arch/x86_64/impl-apic.c and Kernel/arch/x86_64/cpu.c: the interrupt controllers and the
-- processor's own registers.
mod Defs
mod Local
mod Io
mod Redirect
mod Tests
