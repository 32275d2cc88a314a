-- ===== src/Pci/Tests.antt =====
-- A capability with addresses of 64 bits, and a device with one prefetchable range.
use cubik_os.Prelude.{
  ℕ, ◌+◌, ◌*◌, ◌/◌, ◌%◌, ◌^◌, ◌≡◌, ◌⊎◌, inr, refl, arith, ◌==◌, if◌then◌else◌, u32,
}
use cubik_os.Pci.Defs.{Device, read_at, get_base_address_register}
use cubik_os.Pci.Laws.{get_base_address_register-high}

abbrev device : Device
device = record { bus = 0; slot = 2; func = 0 }

abbrev space : ℕ → ℕ → ℕ → ℕ → ℕ
space bus slot func offset = if offset == 0x10 then 0xE000000C else offset

get_base_address_register-high_example :
    (offset : ℕ) × (((0xE000000C % 16 ≡ 4) × (offset % 64 ≡ 0x24))
      ⊎ ((0xE000000C % 16 ≡ 12) × (offset % 64 ≡ 0x04)))
    × (get_base_address_register space device 0
        ≡ 0xE000000C / 16 * 16 + 2 ^ 32 * u32 (read_at space device offset))
get_base_address_register-high_example =
    get_base_address_register-high space device 0 0xE000000C (omega arith) refl (inr refl)
