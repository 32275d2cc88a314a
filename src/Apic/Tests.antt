-- ===== src/Apic/Tests.antt =====
-- An I/O APIC whose registers keep every bit, and a local APIC that is memory.
use cubik_os.Prelude.{
  ℕ, ◌+◌, ◌*◌, ◌/◌, ◌%◌, ◌^◌, ◌<◌, ◌≡◌, ◌≢◌, ◌∙◌, ap, subst, sym, ℕ_discrete, Bool-cases, inl, inr,
  ltb, leb, ◌&&◌, refl, ◌==◌, if◌then◌else◌, true, false, some, [], ◌∷◌, update, u32, u64, arith,
}
use cubik_os.Paging.Tables.{vm_get_io_mapping, kernel_io_virtual_base}
use cubik_os.Apic.Defs.{
  Device, Apic, lapic_initialize, ioapic_write_data64, ioapic_read_data64, ioapic_initialize,
}
use cubik_os.Apic.Io.{kept, kept_low, kept_high, IsEntry, IsIoApic, read_data64-write_data64}
use cubik_os.Apic.Redirect.{ioapic_initialize-redirected}
use cubik_os.Apic.Local.{IsSeparate, lapic_initialize-misses}

abbrev Registers : Type 0
Registers = ℕ × (ℕ → ℕ)

-- 24 entries. The select register at `select` has 8 bits, the window is everywhere else, only the
-- bits that can be written are kept, registers out of the table keep nothing, and the delivery
-- status of every entry shows 1.
abbrev io_device : ℕ → Device Registers
io_device select = record {
  read = λ a s. kept (s).0 ((s).1 (s).0) + (if (s).0 % 2 == 0 then 2 ^ 12 else 0);
  after_read = λ a s. s;
  write = λ a value s.
      if a == select
      then (value % 2 ^ 8, (s).1)
      else if leb 0x10 (s).0 && ltb (s).0 0x40
      then ((s).0, update (s).1 (s).0 (kept (s).0 value))
      else s;
}

kept_low-status : (value : ℕ) → kept_low (kept_low value + 2 ^ 12) ≡ kept_low value
kept_low-status value = omega arith

kept_low-twice : (value : ℕ) → kept_low (kept_low value) ≡ kept_low value
kept_low-twice value = omega arith

kept_high-twice : (value : ℕ) → kept_high (kept_high value) ≡ kept_high value
kept_high-twice value = omega arith

kept-twice : (reg value : ℕ) → kept reg (kept reg value) ≡ kept reg value
kept-twice reg value = elim (Bool-cases (reg % 2 == 0)) [
  | inl even ↦ rw even (kept_low-twice value)
  | inr odd ↦ rw odd (kept_high-twice value)
]

kept-status :
    (reg value : ℕ)
    → kept reg (kept reg value + (if reg % 2 == 0 then 2 ^ 12 else 0)) ≡ kept reg value
kept-status reg value = elim (Bool-cases (reg % 2 == 0)) [
  | inl even ↦ rw even (kept_low-status value)
  | inr odd ↦ rw odd (
      ap kept_high {x = kept_high value + 0} {y = kept_high value} (omega arith)
      ∙ kept_high-twice value)
]

kept-word : (reg value : ℕ) → kept reg value + (if reg % 2 == 0 then 2 ^ 12 else 0) < 2 ^ 32
kept-word reg value = elim (Bool-cases (reg % 2 == 0)) [
  | inl even ↦ rw even (omega arith)
  | inr odd ↦ rw odd (omega arith)
]

selected :
    (select reg : ℕ) (s : Registers) → (io_device select).write select reg s ≡ (reg % 2 ^ 8, (s).1)
selected select reg s = ground arith

entry_select : (reg : ℕ) → IsEntry 24 reg → reg % 2 ^ 8 ≡ reg
entry_select reg (lo, hi) = omega arith

stored :
    (select window reg value : ℕ) (regs : ℕ → ℕ)
    → window ≢ select
    → IsEntry 24 reg
    → (io_device select).write window value (reg, regs) ≡ (reg, update regs reg (kept reg value))
stored select window reg value regs apart (lo, hi) =
    let other : (window == select) ≡ false = ground (arith, apart) in
    let above : leb 0x10 reg ≡ true = ground arith in
    let below : ltb reg 0x40 ≡ true = ground arith in rw (other, above, below) refl

updated :
    (r reg value : ℕ) (regs : ℕ → ℕ)
    → kept r (update regs reg (kept reg value) r)
      ≡ (if reg == r then kept reg value else kept r (regs r))
updated r reg value regs = elim (ℕ_discrete reg r) [
  | yes same ↦
      let e : (reg == r) ≡ true = ground arith in
      rw e (ap (λ q. kept q (kept reg value)) (sym same) ∙ kept-twice reg value)
  | no ne ↦ let e : (reg == r) ≡ false = ground arith in rw e refl
]

abbrev io_device_laws :
    (select window : ℕ) → window ≢ select → IsIoApic (io_device select) select window
io_device_laws select window apart = record {
  entries = 24;
  few = omega arith;
  register = λ r s. kept r ((s).1 r);
  word = λ reg s.
      subst (λ t. (io_device select).read window t < 2 ^ 32) (sym (selected select reg s))
        (kept-word (reg % 2 ^ 8) ((s).1 (reg % 2 ^ 8)));
  written = λ r reg value s er (lo, hi).
      ap (λ t. kept r (((io_device select).write window value t).1 r))
        (selected select reg s ∙ ap (λ k. (k, (s).1)) (entry_select reg (lo, hi)))
      ∙ ap (λ (t : Registers). kept r ((t).1 r))
          (stored select window reg value (s).1 apart (lo, hi))
      ∙ updated r reg value (s).1;
  shown = λ reg s (lo, hi).
      ap (λ t. kept reg ((io_device select).read window t))
        (selected select reg s ∙ ap (λ k. (k, (s).1)) (entry_select reg (lo, hi)))
      ∙ kept-status reg ((s).1 reg);
  stays = λ r reg s er lt. ap (λ (t : Registers). kept r ((t).1 r)) (selected select reg s);
}

abbrev io_apic : ℕ → ℕ → Apic Registers
io_apic select window = record {
  device = (0, λ r. 0);
  msrs = λ c. 0;
  local_ptr = 0;
  io_base = 0xFEC00000;
  io_virt_base = 0;
  register_select = select;
  window = window;
  interrupts = 0;
  id = 0;
}

-- The unmasked entry for the vector 0x21 and the destination 5, level triggered.
abbrev one_entry : ℕ
one_entry = 0x500000000008021

read_data64-write_data64_example :
    (kept_low (
        u32
          (ioapic_read_data64
            (io_device 100)
            0x12
            (ioapic_write_data64 (io_device 100) 0x12 one_entry (io_apic 100 116))).0)
      ≡ 0x8021)
    × (kept_high (
          (ioapic_read_data64
            (io_device 100)
            0x12
            (ioapic_write_data64 (io_device 100) 0x12 one_entry (io_apic 100 116))).0
          / 2 ^ 32)
        ≡ 5 * 2 ^ 24)
    × ((r : ℕ)
        → IsEntry 24 r
        → r ≢ 0x12
        → r ≢ 0x13
        → kept r ((ioapic_write_data64 (io_device 100) 0x12 one_entry (io_apic 100 116)).device.1 r)
          ≡ kept r 0)
read_data64-write_data64_example =
    read_data64-write_data64 (io_device 100) 100 116 (io_device_laws 100 116 (omega arith))
      (io_apic 100 116) 1 one_entry (record { selects = refl; shows = refl }) (omega arith)

-- The mapped I/O APIC.
abbrev select : ℕ
select = vm_get_io_mapping 0xFEC00000

select-window : u64 (select + 0x10) ≢ select
select-window e = omega (arith, e)

ioapic_initialize-redirected_example :
    (after : Apic Registers) × (ioapic_initialize
        (io_device select)
        ((2, 0) ∷ (9, 9) ∷ [])
        (io_apic 0 0)
      ≡ some after)
    × (kept 0x14 ((after.device).1 0x14) ≡ 0x20)
    × (kept 0x15 ((after.device).1 0x15) ≡ 0)
ioapic_initialize-redirected_example =
    ioapic_initialize-redirected (io_device select) (io_apic 0 0) [] 2 0 ((9, 9) ∷ [])
      (io_device_laws select (u64 (select + 0x10)) select-window) (omega arith)
      (omega arith, (omega arith, tt)) (omega arith, tt)

-- The controller's base register after a reset: the page 0xFEE00, enabled, on the first processor.
abbrev local_apic : Apic (ℕ → ℕ)
local_apic = record {
  device = λ a. 0;
  msrs = λ c. 0xFEE00 * 4096 + 0x900;
  local_ptr = 0;
  io_base = 0;
  io_virt_base = 0;
  register_select = 0;
  window = 0;
  interrupts = 0;
  id = 0;
}

abbrev memory_device : Device (ℕ → ℕ)
memory_device = record {
  read = λ a s. s a;
  after_read = λ a s. s;
  write = λ a value s. update s a value;
}

abbrev memory_device_laws : IsSeparate memory_device
memory_device_laws = record {
  register = λ a s. s a;
  written = λ a b value s ne. ground (arith, ne);
  read = λ a b s ne. refl;
}

lapic_initialize-misses_example :
    (lapic_initialize memory_device local_apic).device
      (0xFEE00 * 4096 + kernel_io_virtual_base + 0xF0)
    ≡ 0
unfolding lapic_initialize
lapic_initialize-misses_example =
    lapic_initialize-misses memory_device memory_device_laws local_apic 0xFEE00 0x900 refl
      (omega arith) (omega arith)
