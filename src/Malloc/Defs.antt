-- ===== src/Malloc/Defs.antt =====
-- Kernel/src/mm/malloc.c: AllocatePages for the kernel process.
use cubik_os.Prelude.{ℕ, zero, suc, ◌+◌, ◌*◌, true, none, some, ◌==◌, if◌then◌else◌, u32, u64}
use cubik_os.Memory.{load_frame}
use cubik_os.Machine.{Act, ok, hang, spent, pure, lift, ◌>>=◌, ◌>>◌}
use cubik_os.Page.Size.{page_size_align, page_size_order}
use cubik_os.Page.Buddy.{pm_allocate_pages}
use cubik_os.Paging.Tables.{map_virtual_address}
use cubik_os.Paging.Marks.{vm_allocate_pages}

-- PAGE_FLAG_PRESENT | PAGE_FLAG_WRITABLE | PAGE_FLAG_USER
abbrev kernel_flags : ℕ
kernel_flags = 7

-- `m_MemoryAllocated += amount * ARCH_PAGE_SIZE; m_Pages += amount`, where m_Pages has 32 bits.
unfoldable pub account : ℕ → Act (Unit {0})
account amount m = ok tt (record m {
  memory_allocated = u64 (m.memory_allocated + amount * 4096);
  pages = u32 (m.pages + amount);
})

-- The order of a rounded amount, where page_size_order has the fuel for its loop.
unfoldable pub order_of : ℕ → Act ℕ
order_of amount m = elim (page_size_order amount) [ none ↦ spent | some order ↦ ok order m ]

-- AllocatePages(kproc, amount). The marks and the tables may need a page of their own, for which
-- the function calls itself: `fuel` bounds the depth. CallPanic does not return.
unfoldable pub allocate_pages : ℕ → ℕ → ℕ → Act ℕ
allocate_pages zero bitmap amount m = spent
allocate_pages (suc fuel) bitmap amount m =
    (do
      order ← order_of (page_size_align amount)
      phys_page ← lift (pm_allocate_pages order)
      (if phys_page == 0 then (λ m'. hang) else do
        frame ← lift (load_frame phys_page)
        virt ← vm_allocate_pages (allocate_pages fuel bitmap 1) bitmap true (page_size_align amount)
        map_virtual_address (allocate_pages fuel bitmap 1) frame.addr virt (page_size_align amount)
            kernel_flags
        account (page_size_align amount)
        pure virt))
      m
