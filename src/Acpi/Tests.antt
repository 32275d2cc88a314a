-- ===== src/Acpi/Tests.antt =====
-- Small tables of the firmware.
use cubik_os.Prelude.{◌≡◌, ◌+◌, ◌*◌, ◌==◌, true, if◌then◌else◌, some, refl, arith, [], ◌∷◌}
use cubik_os.Bytes.{Bytes, load}
use cubik_os.Strings.Defs.{memcmp, memcmp_loop}
use cubik_os.Paging.Tables.{kernel_io_virtual_base, vm_get_io_mapping}
use cubik_os.Acpi.Defs.{
  Acpi, done, Literals, entries_of, find_table, find_entry, get_entry, walk_madt,
}
use cubik_os.Acpi.Madt.{local_apic, io_apic, Walked}
use cubik_os.Acpi.Walk.{walk_madt-Walked}
use cubik_os.Acpi.Tables.{Search, find_table-Search}
use cubik_os.Acpi.Smbios.{smbios_checksum, add_bytes}

abbrev acpi : Acpi
acpi = record {
  desc = 64;
  rsdt_header = 1000;
  xsdt_header = 0;
  fadt = 0;
  mcfg = 0;
  processors = λ i. 0;
  processor_count = 1;
  isos = λ i. 0;
  iso_amount = 0;
  io_apic_base = 0;
}

-- A processor with the number 5 at 100, and an I/O APIC at 108.
abbrev controllers : Bytes
controllers a =
    if a == 101
    then 8
    else if a == 103
    then 5
    else if a == 104
    then 1
    else if a == 108
    then 1
    else if a == 109
    then 12
    else if a == 113
    then 192
    else 0

controllers-flags : load 4 104 controllers ≡ 1
unfolding load
controllers-flags = refl

controllers-address : load 4 112 controllers ≡ 49152
unfolding load
controllers-address = refl

controllers-first : load 4 116 controllers ≡ 0
unfolding load
controllers-first = refl

walk_madt-Walked_example :
    (after : Acpi) × (walk_madt 3 100 120 controllers acpi ≡ done after)
    × Walked acpi after (local_apic 5 1 ∷ io_apic 49152 0 ∷ [])
walk_madt-Walked_example =
    walk_madt-Walked (local_apic 5 1 ∷ io_apic 49152 0 ∷ []) 3 100 120 controllers acpi
      (
        omega arith,
        (refl, refl, controllers-flags),
        (omega arith, (refl, controllers-address, controllers-first), omega arith),
      )
      (omega arith) (omega arith) (omega arith)

-- "APIC" at 10, "DSDT" at 20, and a root table at 1000 with one entry, which has the signature.
abbrev tables : Bytes
tables a =
    if a == 10
    then 65
    else if a == 11
    then 80
    else if a == 12
    then 73
    else if a == 13
    then 67
    else if a == 20
    then 68
    else if a == 1004
    then 40
    else if a == 1036
    then 200
    else if a == kernel_io_virtual_base + 200
    then 65
    else if a == kernel_io_virtual_base + 201
    then 80
    else if a == kernel_io_virtual_base + 202
    then 73
    else if a == kernel_io_virtual_base + 203
    then 67
    else 0

abbrev literals : Literals
literals = record { dsdt = 20; facp = 30; apic = 10; mcfg = 40; signature = 50 }

tables-names : memcmp 20 10 4 tables ≡ 3
unfolding memcmp memcmp_loop
tables-names = refl

find_table-Search_example :
    Search acpi 10 tables 0 (entries_of acpi tables) 0 0 (find_table literals acpi 10 0 tables)
find_table-Search_example =
    find_table-Search literals acpi 10 0 tables (omega arith) (omega (arith, tables-names))

find_table_run : find_table literals acpi 10 0 tables ≡ some (kernel_io_virtual_base + 200)
unfolding find_table find_entry entries_of get_entry vm_get_io_mapping memcmp memcmp_loop load
find_table_run = refl

-- An entry point of version 2 at the first place, and the two signatures at 100 and at 200.
abbrev entry_point : Bytes
entry_point a =
    if a == 100
    then 95
    else if a == 101
    then 83
    else if a == 102
    then 77
    else if a == 103
    then 95
    else if a == 200
    then 95
    else if a == 201
    then 83
    else if a == 202
    then 77
    else if a == 203
    then 51
    else if a == 204
    then 95
    else if a == kernel_io_virtual_base + 0xF0000
    then 95
    else if a == kernel_io_virtual_base + 0xF0001
    then 83
    else if a == kernel_io_virtual_base + 0xF0002
    then 77
    else if a == kernel_io_virtual_base + 0xF0003
    then 95
    else if a == kernel_io_virtual_base + 0xF0004
    then 131
    else if a == kernel_io_virtual_base + 0xF0005
    then 31
    else 0

entry_point-valid : smbios_checksum (0xF0000 + kernel_io_virtual_base + 0 * 16) entry_point ≡ true
unfolding smbios_checksum add_bytes
entry_point-valid = refl

entry_point-l2 : memcmp (0xF0000 + kernel_io_virtual_base + 0 * 16) 100 4 entry_point ≡ 0
unfolding memcmp memcmp_loop
entry_point-l2 = refl

entry_point-l3 : memcmp (0xF0000 + kernel_io_virtual_base + 0 * 16) 200 5 entry_point ≡ 44
unfolding memcmp memcmp_loop
entry_point-l3 = refl
