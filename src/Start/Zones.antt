-- ===== src/Start/Zones.antt =====
-- Kernel/src/mm/page.c: the descriptor of a physical address, and the loading of zones. The store
-- has the descriptors at the virtual addresses through which they are reached.
use cubik_os.Prelude.{
  ℕ, zero, suc, ◌+◌, ◌-◌, ◌*◌, ◌/◌, ◌^◌, true, ◌==◌, ltb, leb, if◌then◌else◌, none, some, u64,
}
use cubik_os.Macros.{align_up, align_down}
use cubik_os.Memory.{load_frame}
use cubik_os.Machine.{Act, ok, fault, hang, spent, pure, lift, ◌>>=◌, ◌>>◌}
use cubik_os.Page.Size.{page_max_size, arch_page_size}
use cubik_os.Page.Buddy.{frame_size, mark_used, write_pages, pm_allocate_pages, pm_free_pages}
use cubik_os.Paging.Tables.{is_page_present, map_virtual_address, page_flag_writable}
use cubik_os.Paging.Marks.{vm_allocate_pages}
use cubik_os.Boot.Defs.{Range}

abbrev pub kernel_physical_pages : ℕ
kernel_physical_pages = 0xFFFFFF8000000000

-- The address of the descriptor of the physical address `phys`.
abbrev pub descriptor_of : ℕ → ℕ
descriptor_of phys = u64 (kernel_physical_pages + phys / arch_page_size * frame_size)

-- 0 for NULL. `fault` where IsPagePresent returns no value.
unfoldable pub pm_get_page : ℕ → Act ℕ
pm_get_page phys m = elim (is_page_present (descriptor_of phys) m) [
  | none ↦ fault
  | some present ↦ ok (if present then descriptor_of phys else 0) m
]

unfoldable pub pm_free : ℕ → ℕ → Act (Unit {0})
pm_free fuel phys = do page ← pm_get_page phys; lift (pm_free_pages fuel page)

-- The loop of PM_MarkPagesUsed, on fuel. A page with no descriptor is tried again without end.
unfoldable pub mark_used_loop : ℕ → ℕ → ℕ → Act (Unit {0})
mark_used_loop zero current stop = λ m. spent
mark_used_loop (suc n) current stop = if ltb stop current then pure tt else do
  page ← pm_get_page current
  (if page == 0
      then (λ m. hang)
      else do lift (mark_used page); mark_used_loop n (u64 (current + arch_page_size)) stop)

-- PM_MarkPagesUsed, where `current` is what its uninitialised variable holds: the start of the
-- range is computed and not used.
unfoldable pub pm_mark_pages_used : ℕ → ℕ → Range → Act (Unit {0})
pm_mark_pages_used fuel current range =
    mark_used_loop fuel current (align_up range.stop arch_page_size)

-- `PM_AllocatePages(4)->addr`
unfoldable pub allocate_address : Act ℕ
allocate_address = do
  page ← lift (pm_allocate_pages 4)
  (if page == 0 then (λ m. fault) else do frame ← lift (load_frame page); pure frame.addr)

-- The descriptors of the block at `current`, with no page for them: they stand in the block.
unfoldable pub load_first : Act ℕ → ℕ → ℕ → Act (Unit {0})
load_first alloc bitmap current = do
  virt ← vm_allocate_pages alloc bitmap true 16
  map_virtual_address alloc current virt 16 page_flag_writable
  lift (write_pages virt current)
  phys ← allocate_address
  map_virtual_address alloc current (descriptor_of current) 16 page_flag_writable

-- With pages for them: a second allocation gives the pages that are mapped.
unfoldable pub load_next : Act ℕ → ℕ → Act (Unit {0})
load_next alloc current = do
  phys ← allocate_address
  map_virtual_address alloc phys (descriptor_of current) 16 3
  lift (write_pages (descriptor_of current) current)

-- The loop of PM_LoadZoneRange, on fuel. Below 1 MiB it goes round with `current` as it is.
unfoldable pub load_zone : Act ℕ → ℕ → ℕ → ℕ → ℕ → Act (Unit {0})
load_zone alloc bitmap zero current stop = λ m. spent
load_zone alloc bitmap (suc n) current stop =
    if ltb current (u64 (stop + 2 ^ 64 - page_max_size))
    then (if ltb current 0x100000 then (λ m. hang) else do
      space ← lift (pm_allocate_pages 4)
      if space == 0 then load_first alloc bitmap current else load_next alloc current
      load_zone alloc bitmap n (u64 (current + page_max_size)) stop)
    else pure tt

unfoldable pub pm_load_zone_range : Act ℕ → ℕ → ℕ → Range → Act (Unit {0})
pm_load_zone_range alloc bitmap fuel range =
    let start_address = align_up range.start page_max_size in
    let end_address = align_down range.stop page_max_size in
    if leb end_address start_address
    then pure tt
    else load_zone alloc bitmap fuel start_address end_address
