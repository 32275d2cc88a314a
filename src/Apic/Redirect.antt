-- ===== src/Apic/Redirect.antt =====
-- The redirection table that IOAPIC_Initialize sets up.
use cubik_os.Prelude.{
  ℕ, ◌+◌, ◌*◌, ◌/◌, ◌^◌, ◌<◌, ◌≡◌, ◌≢◌, refl, ◌==◌, if◌then◌else◌, List, [], ◌∷◌, ◌++◌, u8, u32,
  u64, some, arith, ◌∙◌, if_false,
}
use cubik_os.Prelude.Bits.{zero-bit_or}
use cubik_os.Paging.Tables.{vm_get_io_mapping}
use cubik_os.Apic.Defs.{Device, Apic, redirect, redirect_all, ioapic_initialize, ioapic_read_data32}
use cubik_os.Apic.Io.{
  kept, IsEntry, IsIoApic, IsAt, register_of, write_data64-register, write_data64-IsAt,
  read_data32-IsAt,
}

-- The first register of the entry for an interrupt.
abbrev pub entry_register : ℕ → ℕ
entry_register gsi = 0x10 + 2 * u8 gsi

-- No entry of the list is for the interrupt.
abbrev pub IsAbsent : ℕ → List (ℕ × ℕ) → Type 0
IsAbsent gsi [] = Unit
IsAbsent gsi ((other, irq) ∷ rest) = (u8 gsi ≢ u8 other) × IsAbsent gsi rest

-- Each interrupt of the list has an entry in a table with so many.
abbrev pub IsWithin : ℕ → List (ℕ × ℕ) → Type 0
IsWithin entries [] = Unit
IsWithin entries ((other, irq) ∷ rest) = (u8 other < entries) × IsWithin entries rest

module _ {S : Type 0} (device : Device S) (select window : ℕ)
    (io : IsIoApic device select window) where
  redirect-register :
      (apic : Apic S)
      → IsAt device select window io apic
      → (r gsi vector : ℕ) → IsEntry io.entries r
      → u8 gsi < io.entries
      → register_of device select window io r (redirect device gsi vector 0 apic) ≡ (
          if entry_register gsi + 1 == r
          then 0
          else if entry_register gsi == r
          then u8 vector
          else register_of device select window io r apic)
  unfolding redirect
  redirect-register apic at r gsi vector er lt =
      let low : kept (entry_register gsi) (u32 (u8 vector)) ≡ u8 vector = ground arith in
      let high : kept (entry_register gsi + 1) (u32 (u8 vector / 2 ^ 32)) ≡ 0 = ground arith in
      rw (zero-bit_or (u8 vector)) (
        write_data64-register device select window io apic at r (entry_register gsi) (u8 vector) er
          (omega arith, omega arith) (omega arith, omega arith)
        ∙ rw (low, high) refl)

  redirect-IsAt :
      (apic : Apic S)
      → IsAt device select window io apic
      → (gsi vector : ℕ) → IsAt device select window io (redirect device gsi vector 0 apic)
  unfolding redirect
  redirect-IsAt apic at gsi vector = write_data64-IsAt device select window io apic at _ _

  -- What the registers of the interrupt's entry hold.
  abbrev Holds : ℕ → ℕ → ℕ → Apic S → Type 0
  Holds gsi low high apic =
      (register_of device select window io (entry_register gsi) apic ≡ low)
      × (register_of device select window io (entry_register gsi + 1) apic ≡ high)

  redirect_all-absent :
      (isos : List (ℕ × ℕ)) (apic : Apic S)
      → IsAt device select window io apic
      → (gsi low high : ℕ) → u8 gsi < io.entries
      → IsWithin io.entries isos
      → IsAbsent gsi isos
      → Holds gsi low high apic
      → Holds gsi low high (redirect_all device isos apic)
  unfolding redirect_all
  redirect_all-absent [] apic at gsi low high lt within absent holds = holds
  redirect_all-absent ((other, irq) ∷ rest) apic at gsi low high lt (lt', within) (ne, absent)
        (at_low, at_high) =
      redirect_all-absent rest (redirect device other (irq + 0x20) 0 apic)
        (redirect-IsAt apic at other (irq + 0x20)) gsi low high lt within absent
        (
          redirect-register apic at (entry_register gsi) other (irq + 0x20)
                (omega arith, omega arith) lt'
              ∙ ground (arith, ne, at_low),
          redirect-register apic at (entry_register gsi + 1) other (irq + 0x20)
                (omega arith, omega arith) lt'
              ∙ ground (arith, ne, at_high),
        )

  redirect_all-last :
      (before : List (ℕ × ℕ)) (gsi irq : ℕ) (later : List (ℕ × ℕ)) (apic : Apic S)
      → IsAt device select window io apic
      → IsWithin io.entries (before ++ ((gsi, irq) ∷ later))
      → IsAbsent gsi later
      → Holds gsi (u8 (irq + 0x20)) 0 (redirect_all device (before ++ ((gsi, irq) ∷ later)) apic)
  unfolding redirect_all
  redirect_all-last [] gsi irq later apic at (lt, within) absent =
      redirect_all-absent later (redirect device gsi (irq + 0x20) 0 apic)
        (redirect-IsAt apic at gsi (irq + 0x20)) gsi (u8 (irq + 0x20)) 0 lt within absent
        (
          redirect-register apic at (entry_register gsi) gsi (irq + 0x20) (omega arith, omega arith)
                lt
              ∙ ground arith,
          redirect-register apic at (entry_register gsi + 1) gsi (irq + 0x20)
                (omega arith, omega arith) lt
              ∙ ground arith,
        )
  redirect_all-last ((other, irq') ∷ before) gsi irq later apic at (lt, within) absent =
      redirect_all-last before gsi irq later (redirect device other (irq' + 0x20) 0 apic)
        (redirect-IsAt apic at other (irq' + 0x20)) within absent

-- With a base that is not NULL, IOAPIC_Initialize does not panic, and each interrupt source that no
-- later one overrides has its entry: the vector is its legacy interrupt's number and 32, the
-- delivery is fixed, edge triggered and not masked, and the destination is 0. The base is that of an
-- I/O APIC that behaves as its manual says and has an entry for each source.
pub ioapic_initialize-redirected :
    {S : Type 0} (device : Device S) (apic : Apic S) (before : List (ℕ × ℕ)) (gsi irq : ℕ)
    (later : List (ℕ × ℕ))
    (io : IsIoApic device
      (vm_get_io_mapping apic.io_base)
      (u64 (vm_get_io_mapping apic.io_base + 0x10)))
    → apic.io_base ≢ 0
    → IsWithin io.entries (before ++ ((gsi, irq) ∷ later))
    → IsAbsent gsi later
    → (after : Apic S) × (ioapic_initialize device (before ++ ((gsi, irq) ∷ later)) apic
        ≡ some after)
      × (io.register (entry_register gsi) after.device ≡ u8 (irq + 0x20))
      × (io.register (entry_register gsi + 1) after.device ≡ 0)
unfolding ioapic_initialize
ioapic_initialize-redirected device apic before gsi irq later io some_base within absent =
    let virt = vm_get_io_mapping apic.io_base in
    let window = u64 (virt + 0x10) in
    let mapped = record apic { io_virt_base = virt; register_select = virt; window = window } in
    let at : IsAt device virt window io mapped = record { selects = refl; shows = refl } in
    let first = ioapic_read_data32 device 1 mapped in
    let at_first = read_data32-IsAt device virt window io mapped at 1 in
    let second = ioapic_read_data32 device 0 (first).1 in
    let at_second = read_data32-IsAt device virt window io (first).1 at_first 0 in
    let ready = record (second).1 { interrupts = (first).0 / 2 ^ 16; id = (second).0 / 2 ^ 24 } in
    let at_ready : IsAt device virt window io ready = record {
      selects = at_second.selects;
      shows = at_second.shows;
    } in
    let held =
      redirect_all-last device virt window io before gsi irq later ready at_ready within absent in
    (
      redirect_all device (before ++ ((gsi, irq) ∷ later)) ready,
      if_false (apic.io_base == 0) _ _ (ground (arith, some_base)),
      (held).0,
      (held).1,
    )
