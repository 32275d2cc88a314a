-- ===== src/Acpi/Defs.antt =====
-- Kernel/arch/x86_64/impl-acpi.c, with the layouts of Kernel/arch/x86_64/acpi.h. The tables are
-- bytes, and a string literal is known by its address. Printing, and switching the interrupts off
-- and on again, are left out.
use cubik_os.Prelude.{
  ℕ, zero, suc, ◌+◌, ◌-◌, ◌*◌, ◌/◌, ◌%◌, ◌^◌, ◌==◌, ltb, if◌then◌else◌, Option, none, some, update,
  u8, u64,
}
use cubik_os.Bytes.{Bytes, load}
use cubik_os.Strings.Defs.{memcmp}
use cubik_os.Paging.Tables.{vm_get_io_mapping}

-- The variables of the file, and ioApicBase of Kernel/arch/x86_64/impl-apic.c.
pub record Acpi : Type 0 where
  pub desc : ℕ
  pub rsdt_header : ℕ
  pub xsdt_header : ℕ
  pub fadt : ℕ
  pub mcfg : ℕ
  pub processors : ℕ → ℕ
  pub processor_count : ℕ
  pub isos : ℕ → ℕ
  pub iso_amount : ℕ
  pub io_apic_base : ℕ

-- `panic` is a call of CallPanic, `undefined` the use of a value that a function did not return or
-- a write behind an array, `spent` a lack of fuel.
pub data Init (A : Type 0) : Type 0 where
  done : A → Init A
  panic undefined spent : Init A

module _ {A B : Type 0} where
  infixl 5 ◌>>=◌
  abbrev pub ◌>>=◌ : Init A → (A → Init B) → Init B
  done a >>= k = k a
  panic >>= k = panic
  undefined >>= k = undefined
  spent >>= k = spent

-- `acpiDesc->revision`
abbrev pub revision : Acpi → Bytes → ℕ
revision acpi m = m (acpi.desc + 15)

-- __acpi_GetEntry. The pointers of `acpi_xsdt_t` are aligned to 8 bytes, those of `acpi_rsdt_t`
-- follow the header.
unfoldable pub get_entry : Acpi → ℕ → Bytes → ℕ
get_entry acpi index m =
    if revision acpi m == 2
    then load 8 (acpi.xsdt_header + 40 + 8 * index) m
    else load 4 (acpi.rsdt_header + 36 + 4 * index) m

-- The number of entries, whose division is on 64 bits and which is then an `int`: no entry where
-- that is negative.
unfoldable pub entries_of : Acpi → Bytes → ℕ
entries_of acpi m =
    let size = u64 (load 4 (acpi.rsdt_header + 4) m + 2 ^ 64 - 36) in
    let entries = size / (if revision acpi m == 2 then 8 else 4) % 2 ^ 32 in
    if ltb entries (2 ^ 31) then entries else 0

abbrev pub header_of : Acpi → ℕ → Bytes → ℕ
header_of acpi i m = vm_get_io_mapping (get_entry acpi i m)

-- The loop of ACPI_FindTable from `i` on, with `n` entries left and `_index` matches so far.
unfoldable pub find_entry : Acpi → ℕ → ℕ → ℕ → ℕ → ℕ → Bytes → Option ℕ
find_entry acpi str index zero i matches m = none
find_entry acpi str index (suc n) i matches m =
    if memcmp (header_of acpi i m) str 4 m == 0
    then (if matches == index
        then some (header_of acpi i m)
        else find_entry acpi str index n (i + 1) (matches + 1) m)
    else find_entry acpi str index n (i + 1) matches m

-- The addresses of the literals "DSDT", "FACP", "APIC", "MCFG" and "RSD PTR ".
pub record Literals : Type 0 where
  pub dsdt : ℕ
  pub facp : ℕ
  pub apic : ℕ
  pub mcfg : ℕ
  pub signature : ℕ

-- ACPI_FindTable; `none` where it returns no value.
unfoldable pub find_table : Literals → Acpi → ℕ → ℕ → Bytes → Option ℕ
find_table literals acpi str index m =
    if acpi.desc == 0
    then some 0
    else if memcmp literals.dsdt str 4 m == 0
    then some (vm_get_io_mapping (load 4 (acpi.fadt + 40) m))
    else find_entry acpi str index (entries_of acpi m) 0 0 m

-- One of the three searches of ACPI_Initialize, from `addr` on with `n` rounds left.
unfoldable pub search : ℕ → ℕ → ℕ → Bytes → Option ℕ
search signature zero addr m = none
search signature (suc n) addr m =
    let rest = search signature n (addr + 16) m in
    if memcmp (vm_get_io_mapping addr) signature 8 m == 0
    then some (vm_get_io_mapping addr)
    else rest

abbrev pub or_else : Option ℕ → Option ℕ → Option ℕ
or_else none other = other
or_else (some found) other = some found

unfoldable pub search_all : ℕ → Bytes → Option ℕ
search_all signature m =
    or_else (search signature 1984 0 m)
      (or_else (search signature 8192 0x80000 m) (search signature 8192 0xE0000 m))

-- `switch (entry->type)` for the entry at `at`. The case of an I/O APIC goes on into the next one.
unfoldable pub note_iso : ℕ → Acpi → Acpi
note_iso at acpi = record acpi {
  isos = update acpi.isos acpi.iso_amount at;
  iso_amount = u8 (acpi.iso_amount + 1);
}

unfoldable pub note_processor : ℕ → Acpi → Init Acpi
note_processor id acpi =
    if ltb acpi.processor_count 256
    then done (record acpi {
      processors = update acpi.processors acpi.processor_count id;
      processor_count = acpi.processor_count + 1;
    })
    else undefined

unfoldable pub note_entry : ℕ → Bytes → Acpi → Init Acpi
note_entry at m acpi =
    if m at == 0
    then (if load 4 (at + 4) m % 4 == 0
        then done acpi
        else if m (at + 3) == 0
        then done acpi
        else note_processor (m (at + 3)) acpi)
    else if m at == 1
    then done (
        note_iso at (
          if load 4 (at + 8) m == 0
          then record acpi { io_apic_base = load 4 (at + 4) m }
          else acpi))
    else if m at == 2
    then done (note_iso at acpi)
    else done acpi

-- `while (madtEntry < madtEnd)`, on fuel.
unfoldable pub walk_madt : ℕ → ℕ → ℕ → Bytes → Acpi → Init Acpi
walk_madt zero at stop m acpi = spent
walk_madt (suc n) at stop m acpi =
    if ltb at stop
    then (do next ← note_entry at m acpi; walk_madt n (u64 (at + m (at + 1))) stop m next)
    else done acpi

abbrev pub required : {A : Type 0} → Option A → Init A
required none = undefined
required (some a) = done a

-- The headers that the descriptor at `desc` leads to.
unfoldable pub set_headers : ℕ → Bytes → Acpi → Acpi
set_headers desc m acpi =
    if m (desc + 15) == 2
    then (let header = vm_get_io_mapping (load 8 (desc + 24) m) in
        record acpi { desc = desc; rsdt_header = header; xsdt_header = header })
    else record acpi { desc = desc; rsdt_header = vm_get_io_mapping (load 4 (desc + 16) m) }

-- ACPI_Initialize, less the copy of the manufacturer's name.
unfoldable pub acpi_initialize : ℕ → Literals → Bytes → Acpi → Init Acpi
acpi_initialize fuel literals m acpi = elim (search_all literals.signature m) [
  | none ↦ panic
  | some desc ↦ (do
    let found = set_headers desc m acpi
    fadt ← required (find_table literals found literals.facp 0 m)
    let with_fadt = record found { fadt = fadt }
    madt ← required (find_table literals with_fadt literals.apic 0 m)
    walked ← walk_madt fuel (u64 (madt + 44)) (u64 (madt + load 4 (madt + 4) m)) m with_fadt
    mcfg ← required (find_table literals walked literals.mcfg 0 m)
    done (record walked { mcfg = mcfg }))
]
