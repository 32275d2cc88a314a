-- ===== src/Apic/Defs.antt =====
-- Kernel/arch/x86_64/impl-apic.c, with the numbers of Kernel/arch/x86_64/apic.h, and the parts of
-- Kernel/arch/x86_64/cpu.c that use it. The controllers are hardware: a device is a parameter.
use cubik_os.Prelude.{
  ℕ, ◌+◌, ◌*◌, ◌/◌, ◌%◌, ◌^◌, ◌==◌, if◌then◌else◌, Option, none, some, List, [], ◌∷◌, update, u8,
  u32, u64, bit_or, bit_and,
}
use cubik_os.Paging.Tables.{vm_get_io_mapping}

-- Accesses of 32 bits to the addresses of a device with states of the type `S`. A read may change
-- the state.
pub record Device (S : Type 0) : Type 0 where
  pub read : ℕ → S → ℕ
  pub after_read : ℕ → S → S
  pub write : ℕ → ℕ → S → S

-- The variables of the file, and the registers that wrmsr and rdmsr access.
pub record Apic (S : Type 0) : Type 0 where
  pub device : S
  pub msrs : ℕ → ℕ
  pub local_ptr : ℕ
  pub io_base : ℕ
  pub io_virt_base : ℕ
  pub register_select : ℕ
  pub window : ℕ
  pub interrupts : ℕ
  pub id : ℕ

-- wrmsr takes the low halves of its operands.
abbrev pub write_msr : {S : Type 0} → ℕ → ℕ → ℕ → Apic S → Apic S
write_msr c low high apic = record apic { msrs = update apic.msrs c (u32 low + 2 ^ 32 * u32 high) }

unfoldable pub lapic_write_base : {S : Type 0} → ℕ → Apic S → Apic S
lapic_write_base val apic = write_msr 0x1B (bit_and val 0xFFFFFFFF) (val / 2 ^ 32) apic

unfoldable pub lapic_read_base : {S : Type 0} → Apic S → ℕ
lapic_read_base apic =
    let low = apic.msrs 0x1B % 2 ^ 32 in
    let high = apic.msrs 0x1B / 2 ^ 32 in bit_or (u64 (high * 2 ^ 32)) low

-- SetCPULocal, for the structure at `cpu`.
unfoldable pub set_cpu_local : {S : Type 0} → ℕ → Apic S → Apic S
set_cpu_local cpu apic =
    let low = bit_and cpu 0xFFFFFFFF in
    let high = bit_and (cpu / 2 ^ 32) 0xFFFFFFFF in
    write_msr 0xC0000101 low high (write_msr 0xC0000102 low high apic)

module _ {S : Type 0} (device : Device S) where
  -- `apicLocalPtr + reg`, where the pointer is to words of 32 bits.
  abbrev pub local_address : ℕ → Apic S → ℕ
  local_address reg apic = u64 (apic.local_ptr + 4 * reg)

  unfoldable pub lapic_write_data : ℕ → ℕ → Apic S → Apic S
  lapic_write_data reg value apic = record apic {
    device = device.write (local_address reg apic) value apic.device;
  }

  unfoldable pub lapic_read_data : ℕ → Apic S → ℕ × Apic S
  lapic_read_data reg apic = (
    device.read (local_address reg apic) apic.device,
    record apic { device = device.after_read (local_address reg apic) apic.device },
  )

  -- LAPIC_StartTimer
  unfoldable pub lapic_start_timer : Apic S → Apic S
  lapic_start_timer apic = lapic_write_data 0x3E0 3 apic

  unfoldable pub lapic_initialize : Apic S → Apic S
  lapic_initialize apic =
      let mapped = record apic { local_ptr = vm_get_io_mapping (lapic_read_base apic) } in
      let on = lapic_write_base (bit_or (lapic_read_base mapped) (2 ^ 11)) mapped in
      let (old, read) = lapic_read_data 0xF0 on in lapic_write_data 0xF0 (bit_or old 0x100) read

  -- GetCpuNum, whose pointer is indexed by 0x20 / 4.
  unfoldable pub get_cpu_num : Apic S → ℕ × Apic S
  get_cpu_num apic =
      if apic.local_ptr == 0
      then (0, apic)
      else (let (id, read) = lapic_read_data (0x20 / 4) apic in (id / 2 ^ 24, read))

  unfoldable pub ioapic_write_data32 : ℕ → ℕ → Apic S → Apic S
  ioapic_write_data32 reg value apic = record apic {
    device =
        device.write apic.window (u32 value)
          (device.write apic.register_select (u32 reg) apic.device);
  }

  unfoldable pub ioapic_read_data32 : ℕ → Apic S → ℕ × Apic S
  ioapic_read_data32 reg apic =
      let selected = device.write apic.register_select (u32 reg) apic.device in
      (
        device.read apic.window selected,
        record apic { device = device.after_read apic.window selected },
      )

  unfoldable pub ioapic_write_data64 : ℕ → ℕ → Apic S → Apic S
  ioapic_write_data64 reg value apic =
      ioapic_write_data32 (reg + 1) (u32 (value / 2 ^ 32))
        (ioapic_write_data32 reg (bit_and value 0xFFFFFFFF) apic)

  unfoldable pub ioapic_read_data64 : ℕ → Apic S → ℕ × Apic S
  ioapic_read_data64 reg apic =
      let (low, first) = ioapic_read_data32 reg apic in
      let (high, second) = ioapic_read_data32 (reg + 1) first in
      (bit_or low (high * 2 ^ 32), second)

  -- __apic_Redirect, whose first two arguments are bytes.
  unfoldable pub redirect : ℕ → ℕ → ℕ → Apic S → Apic S
  redirect irq vector delivery apic =
      ioapic_write_data64 (0x10 + 2 * u8 irq) (bit_or delivery (u8 vector)) apic

  -- The loop over g_Isos, each with its gSi and its irqSource.
  unfoldable pub redirect_all : List (ℕ × ℕ) → Apic S → Apic S
  redirect_all [] apic = apic
  redirect_all ((gsi, irq_source) ∷ rest) apic =
      redirect_all rest (redirect gsi (irq_source + 0x20) 0 apic)

  unfoldable pub ioapic_set_base : ℕ → Apic S → Apic S
  ioapic_set_base new_base apic = record apic { io_base = new_base }

  -- IOAPIC_Initialize; `none` is the panic.
  unfoldable pub ioapic_initialize : List (ℕ × ℕ) → Apic S → Option (Apic S)
  ioapic_initialize isos apic =
      if apic.io_base == 0
      then none
      else (let virt = vm_get_io_mapping apic.io_base in
          let mapped = record apic {
            io_virt_base = virt;
            register_select = virt;
            window = u64 (virt + 0x10);
          } in
          let (version, first) = ioapic_read_data32 1 mapped in
          let (number, second) = ioapic_read_data32 0 first in
          some (
            redirect_all isos
              (record second { interrupts = version / 2 ^ 16; id = number / 2 ^ 24 })))
