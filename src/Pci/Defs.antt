-- ===== src/Pci/Defs.antt =====
-- Kernel/arch/x86_64/pci.c and Kernel/arch/x86_64/pci.h. The accesses to the configuration space,
-- which the repository only declares, are parameters.
use cubik_os.Prelude.{
  ℕ, ◌+◌, ◌*◌, ◌/◌, ◌%◌, ◌^◌, Bool, ◌==◌, ◌&&◌, ltb, if◌then◌else◌, u8, u32, u64, bit_or,
}

-- `pci_msicap_t`; the third word is `data`, or `addressHigh` where addresses have 64 bits.
pub record MsiCap : Type 0 where
  pub msi_control : ℕ
  pub address_low : ℕ
  pub third : ℕ
  pub data64 : ℕ

-- `msiControl & PCI_CAP_MSI_CONTROL_64`
abbrev pub is_64 : MsiCap → Bool
is_64 cap = cap.msi_control / 2 ^ 7 % 2 == 1

unfoldable pub msi_cap_set_data : MsiCap → ℕ → MsiCap
msi_cap_set_data cap dat =
    if is_64 cap then record cap { data64 = dat } else record cap { third = dat }

unfoldable pub msi_cap_get_data : MsiCap → ℕ
msi_cap_get_data cap = if is_64 cap then cap.data64 else cap.third

unfoldable pub msi_cap_set_address : MsiCap → ℕ → MsiCap
msi_cap_set_address cap cpu =
    let low = record cap { address_low = bit_or 0xFEE00000 (u32 (u32 cpu * 2 ^ 12)) } in
    if is_64 cap then record low { third = 0 } else low

-- `pci_device_t`, as far as the accesses use it.
pub record Device : Type 0 where
  pub bus : ℕ
  pub slot : ℕ
  pub func : ℕ

module _ (config_read_dword : ℕ → ℕ → ℕ → ℕ → ℕ) where
  abbrev pub read_at : Device → ℕ → ℕ
  read_at device offset = config_read_dword device.bus device.slot device.func (u8 offset)

  -- The offset of the second access has the value that was read, where the index is meant.
  abbrev pub high_offset : ℕ → ℕ
  high_offset bar = u8 (0x10 + u64 ((bar + 1) * 4))

  abbrev pub is_wide : ℕ → ℕ → Bool
  is_wide bar idx = (bar % 2 == 0) && ((bar / 4 % 2 == 1) && ltb idx 5)

  -- PCI_GetBaseAddressRegister; the masks clear two bits, or four.
  unfoldable pub get_base_address_register : Device → ℕ → ℕ
  get_base_address_register device idx =
      let low = u32 (read_at device (0x10 + idx * 4)) in
      let bar =
        if is_wide low idx
        then bit_or low (u32 (read_at device (high_offset low)) * 2 ^ 32)
        else low in
      if bar % 2 == 1 then bar / 4 * 4 else bar / 16 * 16

  unfoldable pub is_bar_io_port : Device → ℕ → Bool
  is_bar_io_port device idx = read_at device (0x10 + idx * 4) % 2 == 1

-- PCI_GetInterruptLine and PCI_SetInterruptLine, over the byte accesses.
unfoldable pub get_interrupt_line : (ℕ → ℕ → ℕ → ℕ → ℕ) → Device → ℕ
get_interrupt_line config_read_byte device =
    config_read_byte device.bus device.slot device.func 0x3C

unfoldable pub set_interrupt_line : {S : Type 0} → (ℕ → ℕ → ℕ → ℕ → ℕ → S → S) → Device → ℕ → S → S
set_interrupt_line config_write_byte device irq s =
    config_write_byte device.bus device.slot device.func 0x3C irq s

abbrev pub pci_command : ℕ
pci_command = 4

abbrev pub pci_cmd_bus_master : ℕ
pci_cmd_bus_master = 4

-- PCI_GetCommand, PCI_SetCommand and PCI_EnableBusMastering, over the accesses to words.
module _ {S : Type 0} (config_read_word : ℕ → ℕ → ℕ → ℕ → S → ℕ)
    (config_write_word : ℕ → ℕ → ℕ → ℕ → ℕ → S → S) where
  unfoldable pub get_command : Device → S → ℕ
  get_command device s = config_read_word device.bus device.slot device.func pci_command s

  unfoldable pub set_command : Device → ℕ → S → S
  set_command device value s =
      config_write_word device.bus device.slot device.func pci_command value s

  unfoldable pub enable_bus_mastering : Device → S → S
  enable_bus_mastering device s =
      config_write_word device.bus device.slot device.func pci_command
        (bit_or (config_read_word device.bus device.slot device.func pci_command s)
          pci_cmd_bus_master)
        s
