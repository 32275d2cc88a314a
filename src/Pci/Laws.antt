-- ===== src/Pci/Laws.antt =====
-- Message signalled interrupts, and base addresses.
use cubik_os.Prelude.{
  ℕ, ◌+◌, ◌*◌, ◌/◌, ◌%◌, ◌^◌, ◌<◌, ◌≡◌, ◌⊎◌, inl, inr, refl, true, false, ◌==◌, if◌then◌else◌, u32,
  bit_or, arith, ◌∙◌, Bool-cases,
}
use cubik_os.Prelude.Bits.{bit_or-shifted, bit_or_comm}
use cubik_os.Pci.Defs.{
  MsiCap, is_64, msi_cap_set_data, msi_cap_get_data, msi_cap_set_address, Device, read_at,
  high_offset, is_wide, get_base_address_register,
}

-- After the data and then the address have been set for the processor `cpu`, one of the first 256,
-- the data is what was set, and the address is that of the processor's local APIC, on a capability
-- of either width.
pub msi_cap_get_data-set :
    (cap : MsiCap) (dat cpu : ℕ)
    → cpu < 256
    → (msi_cap_get_data (msi_cap_set_address (msi_cap_set_data cap dat) cpu) ≡ dat)
      × ((msi_cap_set_address (msi_cap_set_data cap dat) cpu).address_low ≡ 0xFEE00000 + cpu * 4096)
unfolding msi_cap_get_data msi_cap_set_data msi_cap_set_address
msi_cap_get_data-set cap dat cpu small =
    let word : u32 (u32 cpu * 2 ^ 12) ≡ cpu * 2 ^ 12 = omega arith in
    let joined : bit_or 0xFEE00000 (cpu * 2 ^ 12) ≡ 0xFEE00000 + cpu * 2 ^ 12 =
      bit_or-shifted 20 0xFEE (cpu * 2 ^ 12) (omega arith) in
    elim (Bool-cases (is_64 cap)) [
      | inl wide ↦ (rw (wide, wide, wide) refl, rw (wide, wide, word) joined)
      | inr narrow ↦ (rw (narrow, narrow, narrow) refl, rw (narrow, narrow, word) joined)
    ]

-- The two halves of an address, with the low bits masked.
masked :
    (low h : ℕ)
    → low < 2 ^ 32
    → low % 2 ≡ 0
    → (if bit_or low (h * 2 ^ 32) % 2 == 1
        then bit_or low (h * 2 ^ 32) / 4 * 4
        else bit_or low (h * 2 ^ 32) / 16 * 16)
      ≡ low / 16 * 16 + 2 ^ 32 * h
masked low h word even =
    let joined : bit_or low (h * 2 ^ 32) ≡ h * 2 ^ 32 + low =
      bit_or_comm low (h * 2 ^ 32) ∙ bit_or-shifted 32 h low word in
    let memory : ((h * 2 ^ 32 + low) % 2 == 1) ≡ false =
      let e : (h * 2 ^ 32 + low) % 2 ≡ 0 = omega arith in rw e refl in
    rw (joined, memory) (omega arith)

-- The upper half of a memory address of 64 bits, whose lower half is in one of the first five
-- registers, is read at an offset that depends on the value of the lower half: it is 0x24 or, for
-- prefetchable memory, 0x04, modulo 64.
pub get_base_address_register-high :
    (config_read_dword : ℕ → ℕ → ℕ → ℕ → ℕ) (device : Device) (idx low : ℕ)
    → idx < 5
    → u32 (read_at config_read_dword device (0x10 + idx * 4)) ≡ low
    → (low % 16 ≡ 4) ⊎ (low % 16 ≡ 12)
    → (offset : ℕ) × (((low % 16 ≡ 4) × (offset % 64 ≡ 0x24))
        ⊎ ((low % 16 ≡ 12) × (offset % 64 ≡ 0x04)))
      × (get_base_address_register config_read_dword device idx
          ≡ low / 16 * 16 + 2 ^ 32 * u32 (read_at config_read_dword device offset))
unfolding get_base_address_register
get_base_address_register-high config_read_dword device idx low small here memory = (
  high_offset config_read_dword low,
  place memory,
  rw (here, wide memory)
      (masked low (u32 (read_at config_read_dword device (high_offset config_read_dword low)))
        (omega (arith, here)) (even memory)),
)
  where
    even : (low % 16 ≡ 4) ⊎ (low % 16 ≡ 12) → low % 2 ≡ 0
    even (inl e) = omega arith
    even (inr e) = omega arith

    wide : (low % 16 ≡ 4) ⊎ (low % 16 ≡ 12) → is_wide config_read_dword low idx ≡ true
    wide (inl e) = ground arith
    wide (inr e) = ground arith

    place :
        (low % 16 ≡ 4) ⊎ (low % 16 ≡ 12)
        → ((low % 16 ≡ 4) × (high_offset config_read_dword low % 64 ≡ 0x24))
          ⊎ ((low % 16 ≡ 12) × (high_offset config_read_dword low % 64 ≡ 0x04))
    place (inl e) = inl (e, omega arith)
    place (inr e) = inr (e, omega arith)
