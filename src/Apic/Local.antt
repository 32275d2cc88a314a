-- ===== src/Apic/Local.antt =====
-- The local APIC.
use cubik_os.Prelude.{ℕ, ◌+◌, ◌*◌, ◌/◌, ◌%◌, ◌^◌, ◌<◌, ◌≡◌, ◌≢◌, ltb, u64, arith, ◌∙◌, ap, if_false}
use cubik_os.Prelude.Bits.{bit_and-ones, bit_or-shifted}
use cubik_os.Paging.Tables.{vm_get_io_mapping, kernel_io_virtual_base}
use cubik_os.Apic.Defs.{
  Device, Apic, lapic_write_base, lapic_read_base, lapic_write_data, lapic_read_data,
  lapic_initialize,
}

-- What the hardware's manual says of registers that are memory: an access to one address leaves the
-- register at another one.
pub record IsSeparate {S : Type 0} (device : Device S) : Type 0 where
  pub register : ℕ → S → ℕ
  pub written : (a b value : ℕ) (s : S) → a ≢ b → register b (device.write a value s) ≡ register b s
  pub read : (a b : ℕ) (s : S) → a ≢ b → register b (device.after_read a s) ≡ register b s

read_base-msr :
    {S : Type 0} (apic : Apic S) → apic.msrs 0x1B < 2 ^ 64 → lapic_read_base apic ≡ apic.msrs 0x1B
unfolding lapic_read_base
read_base-msr apic word =
    let high : u64 (apic.msrs 0x1B / 2 ^ 32 * 2 ^ 32) ≡ apic.msrs 0x1B / 2 ^ 32 * 2 ^ 32 =
      omega arith in
    rw (high, bit_or-shifted 32 (apic.msrs 0x1B / 2 ^ 32) (apic.msrs 0x1B % 2 ^ 32) (omega arith))
      (omega arith)

write_base-msr :
    {S : Type 0} (val : ℕ) (apic : Apic S)
    → val < 2 ^ 64
    → (lapic_write_base val apic).msrs 0x1B ≡ val
unfolding lapic_write_base
write_base-msr val apic word = omega (arith, bit_and-ones 32 val)

-- LAPIC_ReadBase after LAPIC_WriteBase gives the value of 64 bits that was written.
pub lapic_read_base-write_base :
    {S : Type 0} (val : ℕ) (apic : Apic S)
    → val < 2 ^ 64
    → lapic_read_base (lapic_write_base val apic) ≡ val
lapic_read_base-write_base val apic word =
    let kept = write_base-msr val apic word in
    let small : (lapic_write_base val apic).msrs 0x1B < 2 ^ 64 = omega (arith, kept) in
    read_base-msr (lapic_write_base val apic) small ∙ kept

vm_get_io_mapping-low : (a : ℕ) → a < 2 ^ 32 → vm_get_io_mapping a ≡ a + kernel_io_virtual_base
unfolding vm_get_io_mapping
vm_get_io_mapping-low a small = if_false (ltb 0xFFFFFFFF a) _ _ (ground arith) ∙ omega arith

-- LAPIC_Initialize leaves the spurious interrupt vector register as it is, which stands at 0xF0 in
-- the controller's page: the base register has the address of this page, below 4 GiB, and any flags
-- in its low 12 bits.
pub lapic_initialize-misses :
    {S : Type 0} (device : Device S) (separate : IsSeparate device) (apic : Apic S) (page flags : ℕ)
    → apic.msrs 0x1B ≡ page * 4096 + flags
    → flags < 4096
    → page < 2 ^ 20
    → separate.register
        (page * 4096 + kernel_io_virtual_base + 0xF0)
        (lapic_initialize device apic).device
      ≡ separate.register (page * 4096 + kernel_io_virtual_base + 0xF0) apic.device
unfolding lapic_initialize lapic_read_data lapic_write_data lapic_write_base
lapic_initialize-misses device separate apic page flags base low small =
    let word : apic.msrs 0x1B < 2 ^ 64 = omega (arith, base) in
    let ptr : vm_get_io_mapping (lapic_read_base apic)
        ≡ page * 4096 + flags + kernel_io_virtual_base =
      ap vm_get_io_mapping (read_base-msr apic word ∙ base) ∙ io_mapping page flags low small in
    let a = u64 (vm_get_io_mapping (lapic_read_base apic) + 4 * 0xF0) in
    let away : a ≢ page * 4096 + kernel_io_virtual_base + 0xF0 = λ e. omega (arith, ptr, e) in
    separate.written a (page * 4096 + kernel_io_virtual_base + 0xF0) _ _ away
    ∙ separate.read a (page * 4096 + kernel_io_virtual_base + 0xF0) apic.device away
  where
    io_mapping :
        (page flags : ℕ)
        → flags < 4096
        → page < 2 ^ 20
        → vm_get_io_mapping (page * 4096 + flags) ≡ page * 4096 + flags + kernel_io_virtual_base
    io_mapping page flags low small = vm_get_io_mapping-low (page * 4096 + flags) (omega arith)
