-- ===== src/Lib.antt =====
-- Verification library of the CubikOS kernel (Kernel/).
--
-- The kernel hands out physical pages by a buddy allocator whose free lists are intrusive linked
-- lists of page descriptors, keeps marks of the virtual pages in use, and writes the tables that
-- map one to the other. AllocatePages joins the three. Beside them stand the string and memory
-- functions, the text terminal, on which the kernel reports, and the descriptors and the dispatch
-- of interrupts. At the start the loader's tags give a memory map (Boot), whose entries
-- MemoryInitialize hands to the page allocator (Start) once LoadVirtualMemory has set up the tables
-- of the kernel itself. Small objects come from slabs on top of pages (Slab), and processes and
-- threads from those (Process). The firmware's tables (Acpi) name the processors and the interrupt
-- controllers (Apic).
--
-- Files:
--   Prelude     shared names, Boolean tests, words of fixed width, C arrays, laws of bits
--   Macros      Kernel/include/macros.h: ALIGN_DOWN and ALIGN_UP
--   Memory      list nodes and page descriptors at addresses, and commands with faults
--   LinkedList  Kernel/src/utils/list.c: LinkedListAppend (`list_append`), LinkedListRemove
--   Lock        Kernel/include/utils/spinlock.h on several processors, as a step relation
--   Page        Kernel/src/mm/page.c: `Size` has page_size_align and page_size_order; `Buddy` has
--               PM_AllocatePages, PM_Allocate, PM_ExpandPage, PM_FreePages, PM_CombinePage and
--               write_pages; `Pool` is the invariant of the free lists; `Write`, `Cleared` and
--               `Lost` are about a block that write_pages puts on them
--   Bytes       the memory as bytes, with 64-bit accesses at any address
--   Machine     the state of memory management as a whole: the allocator's store, the kernel's
--               tables, the bytes and the counters of the kernel process
--   Paging      Kernel/arch/x86_64/paging.c: `Tables` has MapVirtualAddress, VM_GetPage,
--               ConvertVirtToPhys and IsPagePresent; `Marks` has VM_AllocatePages,
--               VM_MarkPagesUsed, VM_MarkPagesFree and VM_FreePages; `First` is about the scan for
--               one page, `Runs` and `Several` about that for several, `Skips` about full words
--   Boot        ParseStivale2Info of Kernel/arch/x86_64/bootx64.h: `Map` is the memory map in the
--               kernel's array, `Tags` the chain of tags
--   Start       `Tables` has LoadVirtualMemory, `Zones` has PM_LoadZoneRange, PM_MarkPagesUsed,
--               PM_GetPage and PM_Free of Kernel/src/mm/page.c, `Memory` has MemoryInitialize
--   Slab        Kernel/src/mm/slub.c: `Defs` has the caches and pages, `Allocate` the paths of
--               __slab_AllocateObject, KM_Allocate and KM_AllocateStruct; `Runs` and `Fresh` are
--               about allocations in a row
--   Process     Kernel/src/proc/{proc,sched,activity}.c and Kernel/arch/x86_64/smp.c
--   Acpi        Kernel/arch/x86_64/impl-acpi.c: `Madt` and `Walk` are about the interrupt
--               controllers, `Tables` about ACPI_FindTable; `Smbios` has smbios.c
--   Apic        Kernel/arch/x86_64/impl-apic.c and parts of cpu.c, over a device with 32-bit
--               accesses; `Io` states what its manual says of an I/O APIC
--   Pci         Kernel/arch/x86_64/pci.c and the inline functions of pci.h, over configuration
--               accesses that are parameters
--   Launch      ArchitectureInitialize and kload_stivale2 of Kernel/arch/x86_64/bootx64.c as the
--               events of the start in their order up to one that does not return, CPUID, and Kernel/src/panic.c and
--               Kernel/src/graphic/framebuffer.c
--   Malloc      Kernel/src/mm/malloc.c: AllocatePages for the kernel process
--   Strings     Kernel/src/string.c, and memset, memcpy and memcmp of Kernel/src/mm/memory.c
--   Terminal    Kernel/src/graphic/terminal.c
--   Interrupts  idt.c, gdt.c, interrupts.c, pic.c and pit.c of Kernel/arch/x86_64
--
-- A function of the source keeps its name in lower case with underscores. Numbers are native
-- naturals with the wrap-around of their width written out. Loops are structural where the source
-- counts, and have fuel where they end at a value that they meet: a string function needs more
-- fuel than the text has characters, page_size_order has 12 rounds for its 11 orders, and the
-- fuel of `allocate_pages` bounds how deep it calls itself for pages of marks and tables, which
-- is 1 where these exist. PM_FreePages has fuel for each block that it combines.
-- A lock is a word of its descriptor. Waiting for one that is held is `hang`, as is a search that
-- tries the same busy page again, and CallPanic. An access through NULL is `fault`. `1 << bit` for
-- a bit of 32 or more is what the processor computes, with the shift taken modulo 32, and a product
-- with a bit-field of 36 bits keeps 36 bits, as gcc computes it. The word behind g_cachePointers, to
-- which the index 16 leads, is one more element of the array.
-- The walks over tags and over the table of interrupt controllers have fuel for more rounds than
-- there are entries; the loops over physical addresses have fuel, one unit for each round, and
-- `hang` where they go round in the same state. An uninitialised variable is an argument (`junk`,
-- `sizes`), and so is what the linker or the type of a register context determines.
--
-- Not modelled: switching tables and interrupts, which is single instructions; the AHCI driver, which
-- is empty. Descriptors of pages stand at virtual addresses, and two mappings of one page are two
-- objects; caches and their memory nodes are separate objects too, though the code places them over
-- one another. Applications, LibC and LibOptik have headers only, and the libraries under Thirdparty
-- are not the kernel's code.
mod Prelude
pub mod Macros
pub mod Page
pub mod Launch
pub mod Terminal
pub mod Memory
pub mod LinkedList
pub mod Machine
pub mod Paging
pub mod Bytes
pub mod Strings
pub mod Malloc
pub mod Interrupts
pub mod Boot
pub mod Start
pub mod Slab
pub mod Acpi
pub mod Apic
pub mod Pci
pub mod Process
pub mod Lock
