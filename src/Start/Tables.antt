-- ===== src/Start/Tables.antt =====
-- LoadVirtualMemory of Kernel/arch/x86_64/paging.c.
use cubik_os.Prelude.{ℕ, ◌+◌, ◌-◌, ◌*◌, ◌/◌, ◌%◌, ◌^◌, true, false, update, sweep, u64}
use cubik_os.Macros.{align_up, align_down}
use cubik_os.Bytes.{store64}
use cubik_os.Machine.{Entry, Machine, Act, ◌>>◌}
use cubik_os.Paging.Tables.{pdpt_index, map_virtual_address}
use cubik_os.Paging.Marks.{kernel_virtual_base, vm_mark_pages_used}

-- The addresses of the kernel's objects that the linker chooses.
pub record Symbols : Type 0 where
  pub pdpts : ℕ
  pub page_dirs : ℕ
  pub page_tables : ℕ
  pub page_marks : ℕ
  pub kernel_start : ℕ
  pub kernel_end : ℕ

-- `kernelPages.entries` and `kernelPdpts.entries`, which only this function writes.
pub record Roots : Type 0 where
  pub pml4 : ℕ → Entry
  pub pdpts : ℕ → Entry

-- The entry for the object at the kernel address `virt`.
abbrev pub root_entry : ℕ → Entry
root_entry virt = record {
  present = true;
  writable = true;
  usr = false;
  addr = u64 (virt + 2 ^ 64 - kernel_virtual_base) / 4096 % 2 ^ 36;
}

unfoldable pub load_roots : Symbols → Roots → Roots
load_roots sym roots = record {
  pml4 = update roots.pml4 511 (root_entry sym.pdpts);
  pdpts =
      sweep (λ entries i. update entries i (root_entry (sym.page_dirs + i * 4096))) 0 512
        roots.pdpts;
}

-- The directory and the pointers of the kernel's 1 GiB.
abbrev pub kernel_dir : ℕ
kernel_dir = pdpt_index kernel_virtual_base

unfoldable pub load_dir : Symbols → Machine → ℕ → Machine
load_dir sym m j = record m {
  dirs =
      update m.dirs kernel_dir
        (update (m.dirs kernel_dir) j (root_entry (sym.page_tables + j * 4096)));
  pointers =
      update m.pointers kernel_dir (update (m.pointers kernel_dir) j (sym.page_tables + j * 4096));
}

unfoldable pub load_dirs : Symbols → Machine → Machine
load_dirs sym m = sweep (load_dir sym) 0 512 m

-- `m_VirtuaPagesBitmap[idx] = &kernelPageMarks[idx * 512]`, where the bitmap is the same array.
unfoldable pub load_marks : Symbols → Machine → Machine
load_marks sym m =
    sweep
      (λ m' i. record m' {
        bytes = store64 (sym.page_marks + 8 * i) (sym.page_marks + 8 * (i * 512)) m'.bytes;
      })
      0 16 m

abbrev pub kernel_address : Symbols → ℕ
kernel_address sym = align_down sym.kernel_start 4096

abbrev pub kernel_page_amount : Symbols → ℕ
kernel_page_amount sym = u64 (align_up sym.kernel_end 4096 + 2 ^ 64 - kernel_address sym) / 4096

-- Up to the call of MapVirtualAddress; `alloc` is the call AllocatePages(kproc, 1).
unfoldable pub map_kernel : Act ℕ → Symbols → Act (Unit {0})
map_kernel alloc sym m =
    map_virtual_address alloc (u64 (kernel_address sym + 2 ^ 64 - kernel_virtual_base))
      (kernel_address sym) (kernel_page_amount sym) 3 (load_marks sym (load_dirs sym m))

-- The roots, which the rest does not read, are written by `load_roots`; the handler of page faults
-- is registered with the interrupts, in Interrupts.
unfoldable pub load_virtual_memory : Act ℕ → Symbols → Act (Unit {0})
load_virtual_memory alloc sym = do
  map_kernel alloc sym
  vm_mark_pages_used sym.page_marks true kernel_virtual_base
      (u64 (kernel_address sym + 2 ^ 64 - kernel_virtual_base) / 4096)
  vm_mark_pages_used sym.page_marks true (kernel_address sym) (kernel_page_amount sym)
