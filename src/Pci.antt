-- ===== src/Pci.antt =====
-- Kernel/arch/x86_64/pci.c and the inline functions of Kernel/arch/x86_64/pci.h.
mod Defs
mod Laws
mod Tests
