-- ===== src/Process.antt =====
-- Kernel/src/proc/{proc,sched,activity}.c and Kernel/arch/x86_64/smp.c.
mod Defs
mod Create
mod Pids
mod Tests
