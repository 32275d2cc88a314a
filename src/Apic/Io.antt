-- ===== src/Apic/Io.antt =====
-- The I/O APIC's registers behind the select register and the window.
use cubik_os.Prelude.{
  ℕ, ◌+◌, ◌*◌, ◌/◌, ◌%◌, ◌^◌, ◌≤◌, ◌<◌, ◌≡◌, ◌≢◌, refl, true, false, ◌==◌, if◌then◌else◌, u32,
  bit_and, bit_or, arith, ◌∙◌, ap, sym, if_true, if_false,
}
use cubik_os.Prelude.Bits.{bit_and-ones, bit_or_comm, bit_or-shifted}
use cubik_os.Apic.Defs.{
  Device, Apic, ioapic_write_data32, ioapic_read_data32, ioapic_write_data64, ioapic_read_data64,
}

-- The bits of an entry of the redirection table that a program can write, as the hardware's manual
-- lists them: in the lower half all up to bit 16 but the delivery status (12) and the remote IRR (14),
-- in the upper half the destination.
abbrev pub kept_low : ℕ → ℕ
kept_low value =
    value % 2 ^ 12
    + 2 ^ 13 * (value / 2 ^ 13 % 2)
    + 2 ^ 15 * (value / 2 ^ 15 % 2)
    + 2 ^ 16 * (value / 2 ^ 16 % 2)

abbrev pub kept_high : ℕ → ℕ
kept_high value = 2 ^ 24 * (value / 2 ^ 24 % 2 ^ 8)

abbrev pub kept : ℕ → ℕ → ℕ
kept reg value = if reg % 2 == 0 then kept_low value else kept_high value

-- The registers of a redirection table with so many entries.
abbrev pub IsEntry : ℕ → ℕ → Type 0
IsEntry entries reg = (0x10 ≤ reg) × (reg < 0x10 + 2 * entries)

-- What the hardware's manual says of an I/O APIC at `select` and `window`: the low 8 bits at `select`
-- choose the register that is seen in the window. `register` is what an entry's register holds in
-- the bits that can be written; its other bits may show anything, and nothing is assumed of the
-- registers before the table.
pub record IsIoApic {S : Type 0} (device : Device S) (select window : ℕ) : Type 0 where
  pub entries : ℕ
  pub few : entries ≤ 120
  pub register : ℕ → S → ℕ
  pub word : (reg : ℕ) (s : S) → device.read window (device.write select reg s) < 2 ^ 32
  pub written :
      (r reg value : ℕ) (s : S)
      → IsEntry entries r
      → IsEntry entries reg
      → register r (device.write window value (device.write select reg s))
        ≡ (if reg == r then kept reg value else register r s)
  pub shown :
      (reg : ℕ) (s : S)
      → IsEntry entries reg
      → kept reg (device.read window (device.write select reg s)) ≡ register reg s
  pub stays :
      (r reg : ℕ) (s : S)
      → IsEntry entries r
      → reg < 2 ^ 8
      → register r (device.after_read window (device.write select reg s)) ≡ register r s

module _ {S : Type 0} (device : Device S) (select window : ℕ)
    (io : IsIoApic device select window) where
  -- The variables of the file point to this I/O APIC.
  pub record IsAt (apic : Apic S) : Type 0 where
    pub selects : apic.register_select ≡ select
    pub shows : apic.window ≡ window

  abbrev pub register_of : ℕ → Apic S → ℕ
  register_of r apic = io.register r apic.device

  abbrev pub Entry : ℕ → Type 0
  Entry reg = IsEntry io.entries reg

  write_data32-register :
      (apic : Apic S)
      → IsAt apic
      → (r reg value : ℕ) → Entry r
      → Entry reg
      → register_of r (ioapic_write_data32 device reg value apic)
        ≡ (if reg == r then kept reg (u32 value) else register_of r apic)
  unfolding ioapic_write_data32
  write_data32-register apic at r reg value er (lo, hi) =
      let word : u32 reg ≡ reg = omega (arith, hi, io.few) in
      rw (at.selects, at.shows, word) (io.written r reg (u32 value) apic.device er (lo, hi))

  write_data32-IsAt :
      (apic : Apic S)
      → IsAt apic
      → (reg value : ℕ) → IsAt (ioapic_write_data32 device reg value apic)
  unfolding ioapic_write_data32
  write_data32-IsAt apic at reg value = record { selects = at.selects; shows = at.shows }

  read_data32-value :
      (apic : Apic S)
      → IsAt apic
      → (reg : ℕ) → Entry reg
      → (kept reg (ioapic_read_data32 device reg apic).0 ≡ register_of reg apic)
        × ((ioapic_read_data32 device reg apic).0 < 2 ^ 32)
  unfolding ioapic_read_data32
  read_data32-value apic at reg (lo, hi) =
      let word : u32 reg ≡ reg = omega (arith, hi, io.few) in
      rw (at.selects, at.shows, word) (io.shown reg apic.device (lo, hi), io.word reg apic.device)

  read_data32-register :
      (apic : Apic S)
      → IsAt apic
      → (r reg : ℕ) → Entry r
      → reg < 2 ^ 8
      → register_of r (ioapic_read_data32 device reg apic).1 ≡ register_of r apic
  unfolding ioapic_read_data32
  read_data32-register apic at r reg er small =
      rw (at.selects, at.shows) (io.stays r (u32 reg) apic.device er (omega arith))

  pub read_data32-IsAt :
      (apic : Apic S) → IsAt apic → (reg : ℕ) → IsAt (ioapic_read_data32 device reg apic).1
  unfolding ioapic_read_data32
  read_data32-IsAt apic at reg = record { selects = at.selects; shows = at.shows }

  -- A write of 64 bits sets two registers of the table, and no other one.
  pub write_data64-register :
      (apic : Apic S)
      → IsAt apic
      → (r reg value : ℕ) → Entry r
      → Entry reg
      → Entry (reg + 1)
      → register_of r (ioapic_write_data64 device reg value apic) ≡ (
          if reg + 1 == r
          then kept (reg + 1) (u32 (value / 2 ^ 32))
          else if reg == r
          then kept reg (u32 value)
          else register_of r apic)
  unfolding ioapic_write_data64
  write_data64-register apic at r reg value er low_entry high_entry =
      let low : u32 (bit_and value 0xFFFFFFFF) ≡ u32 value = omega (arith, bit_and-ones 32 value) in
      let high : u32 (u32 (value / 2 ^ 32)) ≡ u32 (value / 2 ^ 32) = omega arith in
      let first = ioapic_write_data32 device reg (bit_and value 0xFFFFFFFF) apic in
      write_data32-register first (write_data32-IsAt apic at reg (bit_and value 0xFFFFFFFF)) r
        (reg + 1) (u32 (value / 2 ^ 32)) er high_entry
      ∙ rw (high, write_data32-register apic at r reg (bit_and value 0xFFFFFFFF) er low_entry, low)
          refl

  pub write_data64-IsAt :
      (apic : Apic S)
      → IsAt apic
      → (reg value : ℕ) → IsAt (ioapic_write_data64 device reg value apic)
  unfolding ioapic_write_data64
  write_data64-IsAt apic at reg value =
      write_data32-IsAt _ (write_data32-IsAt apic at reg _) (reg + 1) _

  pub read_data64-value :
      (apic : Apic S)
      → IsAt apic
      → (reg : ℕ) → Entry reg
      → Entry (reg + 1)
      → (kept reg (u32 (ioapic_read_data64 device reg apic).0) ≡ register_of reg apic)
        × (kept (reg + 1) ((ioapic_read_data64 device reg apic).0 / 2 ^ 32)
            ≡ register_of (reg + 1) apic)
  unfolding ioapic_read_data64
  read_data64-value apic at reg low_entry (lo, hi) =
      let first = (ioapic_read_data32 device reg apic).1 in
      let low = (ioapic_read_data32 device reg apic).0 in
      let high = (ioapic_read_data32 device (reg + 1) first).0 in
      let (shows_low, small) = read_data32-value apic at reg low_entry in
      let (shows_high, small') =
        read_data32-value first (read_data32-IsAt apic at reg) (reg + 1) (lo, hi) in
      let whole : bit_or low (high * 2 ^ 32) ≡ low + 2 ^ 32 * high =
        bit_or_comm low (high * 2 ^ 32) ∙ bit_or-shifted 32 high low small ∙ omega arith in
      let at_low : u32 (low + 2 ^ 32 * high) ≡ low = omega (arith, small) in
      let at_high : (low + 2 ^ 32 * high) / 2 ^ 32 ≡ high = omega (arith, small) in
      (
        ap (λ w. kept reg (u32 w)) whole ∙ ap (kept reg) at_low ∙ shows_low,
        ap (λ w. kept (reg + 1) (w / 2 ^ 32)) whole
            ∙ ap (kept (reg + 1)) at_high
            ∙ shows_high
            ∙ read_data32-register apic at (reg + 1) reg (lo, hi) (omega (arith, hi, io.few)),
      )

-- IOAPIC_ReadData64 after IOAPIC_WriteData64 on an entry of the redirection table gives the value
-- again, in the bits of both halves that a program can write, and no register of another entry has
-- changed. The variables point to an I/O APIC that behaves as its manual says.
pub read_data64-write_data64 :
    {S : Type 0} (device : Device S) (select window : ℕ) (io : IsIoApic device select window)
    (apic : Apic S) (i value : ℕ)
    → IsAt device select window io apic
    → i < io.entries
    → (kept_low (
          u32
            (ioapic_read_data64 device
              (0x10 + 2 * i)
              (ioapic_write_data64 device (0x10 + 2 * i) value apic)).0)
        ≡ kept_low (u32 value))
      × (kept_high (
            (ioapic_read_data64 device
              (0x10 + 2 * i)
              (ioapic_write_data64 device (0x10 + 2 * i) value apic)).0
            / 2 ^ 32)
          ≡ kept_high (u32 (value / 2 ^ 32)))
      × ((r : ℕ)
          → IsEntry io.entries r
          → r ≢ 0x10 + 2 * i
          → r ≢ 0x10 + 2 * i + 1
          → io.register r (ioapic_write_data64 device (0x10 + 2 * i) value apic).device
            ≡ io.register r apic.device)
read_data64-write_data64 device select window io apic i value at lt =
    let reg = 0x10 + 2 * i in
    let after = ioapic_write_data64 device reg value apic in
    let low_entry : IsEntry io.entries reg = (omega arith, omega arith) in
    let high_entry : IsEntry io.entries (reg + 1) = (omega arith, omega arith) in
    let even : (reg % 2 == 0) ≡ true = ground arith in
    let odd : ((reg + 1) % 2 == 0) ≡ false = ground arith in
    let low : io.register reg after.device ≡ kept reg (u32 value) =
      write_data64-register device select window io apic at reg reg value low_entry low_entry
        high_entry
      ∙ ground arith in
    let high : io.register (reg + 1) after.device ≡ kept (reg + 1) (u32 (value / 2 ^ 32)) =
      write_data64-register device select window io apic at (reg + 1) reg value high_entry low_entry
        high_entry
      ∙ ground arith in
    let (shows_low, shows_high) =
      read_data64-value device select window io after
        (write_data64-IsAt device select window io apic at reg value) reg low_entry high_entry in
    (
      sym (if_true (reg % 2 == 0) _ _ even) ∙ shows_low ∙ low ∙ if_true (reg % 2 == 0) _ _ even,
      sym (if_false ((reg + 1) % 2 == 0) _ _ odd)
          ∙ shows_high
          ∙ high
          ∙ if_false ((reg + 1) % 2 == 0) _ _ odd,
      λ r er ne ne'.
          write_data64-register device select window io apic at r reg value er low_entry high_entry
          ∙ ground (arith, ne, ne'),
    )
