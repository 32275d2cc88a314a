-- ===== src/Acpi.antt =====
-- Kernel/arch/x86_64/impl-acpi.c and Kernel/arch/x86_64/smbios.c: the tables of the firmware.
pub mod Defs
mod Madt
mod Walk
mod Tables
pub mod Smbios
mod Tests
