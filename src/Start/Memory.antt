-- ===== src/Start/Memory.antt =====
-- MemoryInitialize of Kernel/src/mm/memory.c, up to its call of KM_Initialize.
use cubik_os.Prelude.{ℕ, zero, suc, ◌+◌, ◌-◌, ◌^◌, true, ◌==◌, if◌then◌else◌, u64}
use cubik_os.Macros.{align_up, align_down}
use cubik_os.Machine.{Act, pure, ◌>>=◌, ◌>>◌}
use cubik_os.Paging.Tables.{map_virtual_address, page_flag_writable}
use cubik_os.Paging.Marks.{vm_allocate_pages}
use cubik_os.Boot.Defs.{Range, MapEntry, BootMem}
use cubik_os.Start.Tables.{Symbols, load_virtual_memory}
use cubik_os.Start.Zones.{pm_mark_pages_used, pm_load_zone_range}

-- `struct mem_stats`
pub record MemStats : Type 0 where
  pub total : ℕ
  pub available : ℕ
  pub present : ℕ
  pub swapped : ℕ
  pub inuse : ℕ
  pub standby : ℕ
  pub cached : ℕ
  pub allocated : ℕ

abbrev pub size_of : Range → ℕ
size_of range = u64 (range.stop + 2 ^ 64 - range.start)

-- What the loops use: the call AllocatePages(kproc, 1), the bitmap, the fuel of each loop over
-- addresses, and what the uninitialised variable of PM_MarkPagesUsed holds.
pub record Setting : Type 0 where
  pub alloc : Act ℕ
  pub bitmap : ℕ
  pub fuel : ℕ
  pub junk : ℕ

-- `switch (entry->type)`
unfoldable pub load_entry : Setting → MapEntry → MemStats → Act MemStats
load_entry setting entry stats =
    if entry.type == 0
    then (do
      pm_load_zone_range setting.alloc setting.bitmap setting.fuel entry.range
      pure (record stats { available = u64 (stats.available + size_of entry.range) }))
    else if entry.type == 5
    then (do
      pm_mark_pages_used setting.fuel setting.junk (record {
        start = align_down entry.range.start 4096;
        stop = align_up entry.range.stop 4096;
      })
      pure (record stats {
        allocated = u64 (stats.allocated + size_of entry.range);
        inuse = u64 (stats.inuse + size_of entry.range);
      }))
    else pure stats

-- The loop over `idx`, with `n` rounds left.
unfoldable pub load_type : Setting → BootMem → ℕ → ℕ → ℕ → MemStats → Act MemStats
load_type setting mem type zero idx stats = pure stats
load_type setting mem type (suc n) idx stats = do
  next ←
      if (mem.entries idx).type == type
      then load_entry setting (mem.entries idx) stats
      else pure stats
  load_type setting mem type n (idx + 1) next

-- The loop over `type`, with `n` rounds left.
unfoldable pub load_types : Setting → BootMem → ℕ → ℕ → MemStats → Act MemStats
load_types setting mem zero type stats = pure stats
load_types setting mem (suc n) type stats = do
  next ← load_type setting mem type mem.map_size 0 stats
  load_types setting mem n (type + 1) next

abbrev pub first_stats : ℕ → MemStats
first_stats total = record {
  total = total;
  available = 0;
  present = 0;
  swapped = 0;
  inuse = 0;
  standby = 0;
  cached = 0;
  allocated = 0;
}

unfoldable pub load_map : Setting → BootMem → Act MemStats
load_map setting mem = load_types setting mem 6 0 (first_stats mem.total_size)

abbrev pub kernel_low_4gb : ℕ
kernel_low_4gb = 0xFFFFFF9300000000

-- The result has the address of the text buffer, and the statistics. Loading the page table into
-- the processor is left out.
unfoldable pub memory_initialize : Setting → Symbols → BootMem → Act (ℕ × MemStats)
memory_initialize setting sym mem = do
  load_virtual_memory setting.alloc sym
  t_addr ← vm_allocate_pages setting.alloc setting.bitmap true 1
  map_virtual_address setting.alloc 0xb8000 t_addr 1 page_flag_writable
  stats ← load_map setting mem
  map_virtual_address setting.alloc 0 kernel_low_4gb 0x100000 3
  pure (t_addr, stats)
