-- ===== src/Paging/Tables.antt =====
-- Kernel/arch/x86_64/paging.c: the kernel's page tables.
use cubik_os.Prelude.{
  ℕ, zero, suc, ◌+◌, ◌*◌, ◌/◌, ◌%◌, ◌^◌, Bool, true, false, ◌==◌, ltb, if◌then◌else◌, Option, none,
  some, update, u64,
}
use cubik_os.Machine.{Entry, Machine, Act, ok, fault, pure, ◌>>=◌, ◌>>◌}

-- PML4_GET_INDEX and the like; `& 0x1FF` is `% 512`.
abbrev pub pml4_index : ℕ → ℕ
pml4_index addr = addr / 2 ^ 39 % 512

abbrev pub pdpt_index : ℕ → ℕ
pdpt_index addr = addr / 2 ^ 30 % 512

abbrev pub pdir_index : ℕ → ℕ
pdir_index addr = addr / 2 ^ 21 % 512

abbrev pub page_index : ℕ → ℕ
page_index addr = addr / 2 ^ 12 % 512

-- `flags & bit` as a Boolean, where `bit` is a power of two.
abbrev pub has_flag : ℕ → ℕ → Bool
has_flag flags bit = flags / bit % 2 == 1

abbrev pub page_flag_present : ℕ
page_flag_present = 2 ^ 0

abbrev pub page_flag_writable : ℕ
page_flag_writable = 2 ^ 1

abbrev pub page_flag_user : ℕ
page_flag_user = 2 ^ 2

-- VM_GetPage: the table and the index of the entry, or none for NULL.
unfoldable pub vm_get_page : ℕ → Machine → Option (ℕ × ℕ)
vm_get_page addr m =
    if pml4_index addr == 511
    then (let table = m.pointers (pdpt_index addr) (pdir_index addr) in
        if table == 0 then none else some (table, page_index addr))
    else none

-- ConvertVirtToPhys: an address with no table is returned as it is. The field `addr` of an entry is
-- a bit-field of 36 bits, and gcc, which the kernel is built with, multiplies it by the size of a
-- page in 36 bits, before the offset is added in 64 bits.
unfoldable pub convert_virt_to_phys : ℕ → Machine → ℕ
convert_virt_to_phys addr m =
    if pml4_index addr == 511
    then (let table = m.pointers (pdpt_index addr) (pdir_index addr) in
        if table == 0
        then addr
        else (m.entries table (page_index addr)).addr * 4096 % 2 ^ 36 + addr % 4096)
    else addr

-- IsPagePresent, which returns no value (`none`) outside the kernel's part of the address space.
unfoldable pub is_page_present : ℕ → Machine → Option Bool
is_page_present addr m =
    if pml4_index addr == 511
    then elim (vm_get_page addr m) [
      | none ↦ some false
      | some (table, index) ↦ some (m.entries table index).present
    ]
    else none

-- An access to a table at NULL is a fault.
unfoldable pub store_entry : ℕ → ℕ → Entry → Act (Unit {0})
store_entry table index e m =
    if table == 0
    then fault
    else ok tt (record m { entries = update m.entries table (update (m.entries table) index e) })

unfoldable pub store_dir : ℕ → ℕ → Entry → Act (Unit {0})
store_dir i j e m = ok tt (record m { dirs = update m.dirs i (update (m.dirs i) j e) })

unfoldable pub store_pointer : ℕ → ℕ → ℕ → Act (Unit {0})
store_pointer i j table m =
    ok tt (record m { pointers = update m.pointers i (update (m.pointers i) j table) })

-- The table for an address that has none. `alloc` is the call AllocatePages(kproc, 1). Where the
-- directory entry is present, the pointer is taken as it is, which here is NULL.
unfoldable pub new_table : Act ℕ → ℕ → ℕ → Act ℕ
new_table alloc virt flags m =
    let i = pdpt_index virt in
    let j = pdir_index virt in
    let dir = m.dirs i j in
    if dir.present
    then ok (m.pointers i j) m
    else ((do
      let made = record dir {
        present = true;
        writable = has_flag flags page_flag_writable;
        usr = has_flag flags page_flag_user;
      }
      store_dir i j made
      table ← alloc
      λ m'.
          (do
            store_dir i j
                (record (m'.dirs i j) { addr = convert_virt_to_phys table m' / 4096 % 2 ^ 36 })
            store_pointer i j table
            pure table)
            m')
        m)

-- One round of the loop of MapVirtualAddress. Outside the kernel's part it only executes `hlt`.
unfoldable pub map_page : Act ℕ → ℕ → ℕ → ℕ → Act (Unit {0})
map_page alloc phys virt flags m =
    if pml4_index virt == 511
    then ((do
      table ← elim (vm_get_page virt m) [
        | none ↦ new_table alloc virt flags
        | some (table, index) ↦ pure table
      ]
      λ m'.
          store_entry table (page_index virt)
            (record (m'.entries table (page_index virt)) {
              present = true;
              writable = has_flag flags page_flag_writable;
              usr = has_flag flags page_flag_user;
              addr = phys / 4096 % 2 ^ 36;
            })
            m')
        m)
    else ok tt m

-- MapVirtualAddress, with `amount` rounds.
unfoldable pub map_virtual_address : Act ℕ → ℕ → ℕ → ℕ → ℕ → Act (Unit {0})
map_virtual_address alloc phys virt zero flags = pure tt
map_virtual_address alloc phys virt (suc amount) flags = do
  map_page alloc phys virt flags
  map_virtual_address alloc (u64 (phys + 4096)) (u64 (virt + 4096)) amount flags

-- VM_GetIOMapping
abbrev pub kernel_io_virtual_base : ℕ
kernel_io_virtual_base = 0xFFFFFF9300000000

unfoldable pub vm_get_io_mapping : ℕ → ℕ
vm_get_io_mapping address =
    if ltb 0xFFFFFFFF address then 0xFFFFFFFF else u64 (address + kernel_io_virtual_base)
