-- ===== src/Start/Ranges.antt =====
-- Which ranges PM_LoadZoneRange loads, and the descriptors that it leaves to PM_GetPage.
use cubik_os.Prelude.{
  ℕ, suc, ◌+◌, ◌-◌, ◌*◌, ◌/◌, ◌%◌, ◌^◌, ◌≤◌, ◌<◌, ◌≡◌, ◌≢◌, refl, true, false, ltb, leb, some, u64,
  arith, ◌∙◌, ap, dec_lt,
}
use cubik_os.Macros.{align_up, align_down, align_down-eq, align_up_lem}
use cubik_os.Machine.{Entry, Machine, Act, ok, hang}
use cubik_os.Page.Size.{page_max_size}
use cubik_os.Paging.Tables.{is_page_present, map_virtual_address}
use cubik_os.Paging.Mapping.{IsKernel, IsSeparate, table_of, convert_virt_to_phys-mapped}
use cubik_os.Boot.Defs.{Range}
use cubik_os.Start.Zones.{
  descriptor_of, kernel_physical_pages, pm_get_page, mark_used_loop, pm_mark_pages_used, load_zone,
  pm_load_zone_range,
}

-- The end of the range in blocks of 4 MiB.
pub stop-block :
    (a : ℕ) → a < 2 ^ 64 → align_down a page_max_size ≡ a / page_max_size * page_max_size
stop-block a small = align_down-eq 42 22 a refl small

-- A range that ends less than 8 MiB behind the first multiple of 4 MiB in it is not loaded at all.
pub pm_load_zone_range-small :
    (alloc : Act ℕ) (bitmap n : ℕ) (range : Range) (m : Machine)
    → range.start + page_max_size ≤ 2 ^ 64
    → range.stop < 2 ^ 64
    → range.stop < align_up range.start page_max_size + 2 * page_max_size
    → pm_load_zone_range alloc bitmap (suc n) range m ≡ ok tt m
unfolding pm_load_zone_range load_zone
pm_load_zone_range-small alloc bitmap n range m start_small stop_small short =
    let (exact, le, lt) = align_up_lem 42 22 range.start refl start_small in
    let stop = stop-block range.stop stop_small in
    elim (dec_lt (align_up range.start page_max_size) (align_down range.stop page_max_size)) [
      | yes more ↦
          let not_empty : leb (align_down range.stop page_max_size)
                (align_up range.start page_max_size)
              ≡ false =
            ground (arith, more) in
          let reach : u64 (align_down range.stop page_max_size + 2 ^ 64 - page_max_size)
              ≤ align_up range.start page_max_size =
            omega (arith, exact, stop, short, more) in
          let done : ltb (align_up range.start page_max_size)
                (u64 (align_down range.stop page_max_size + 2 ^ 64 - page_max_size))
              ≡ false =
            ground (arith, reach) in
          rw (not_empty, done) refl
      | no less ↦
          let empty : leb (align_down range.stop page_max_size) (align_up range.start page_max_size)
              ≡ true =
            ground (arith, less) in
          rw empty refl
    ]

-- A range from the address 0 to 8 MiB or behind makes PM_LoadZoneRange go round for ever.
pub pm_load_zone_range-hang :
    (alloc : Act ℕ) (bitmap n : ℕ) (range : Range) (m : Machine)
    → range.start ≡ 0
    → 2 * page_max_size ≤ range.stop
    → range.stop < 2 ^ 64
    → pm_load_zone_range alloc bitmap (suc n) range m ≡ hang
unfolding pm_load_zone_range load_zone
pm_load_zone_range-hang alloc bitmap n range m start long stop_small =
    let (exact, le, lt) = align_up_lem 42 22 range.start refl (omega arith) in
    let zero_start : align_up range.start page_max_size ≡ 0 = omega arith in
    let stop = stop-block range.stop stop_small in
    let not_empty : leb (align_down range.stop page_max_size) 0 ≡ false = ground (arith, stop) in
    let more : ltb 0 (u64 (align_down range.stop page_max_size + 2 ^ 64 - page_max_size)) ≡ true =
      ground (arith, stop) in
    rw (zero_start, not_empty, more) refl

pm_get_page-there :
    (phys : ℕ) (m : Machine)
    → is_page_present (descriptor_of phys) m ≡ some true
    → pm_get_page phys m ≡ ok (descriptor_of phys) m
unfolding pm_get_page
pm_get_page-there phys m there = rw (pm_get_page, there) refl

pm_get_page-null :
    (phys : ℕ) (m : Machine)
    → is_page_present (descriptor_of phys) m ≡ some false
    → pm_get_page phys m ≡ ok 0 m
unfolding pm_get_page
pm_get_page-null phys m absent = rw (pm_get_page, absent) refl

-- PM_MarkPagesUsed on a page with no descriptor, up to the end of the range, never returns.
pub pm_mark_pages_used-absent :
    (n current : ℕ) (range : Range) (m : Machine)
    → current ≤ align_up range.stop 4096
    → is_page_present (descriptor_of current) m ≡ some false
    → pm_mark_pages_used (suc n) current range m ≡ hang
unfolding pm_mark_pages_used mark_used_loop
pm_mark_pages_used-absent n current range m le absent =
    let on : ltb (align_up range.stop 4096) current ≡ false = ground (arith, le) in
    rw (on, pm_get_page-null current m absent) refl

-- The descriptors of the 1024 pages of the block of 4 MiB with number `k` stand from this page of
-- the kernel's address space on.
abbrev pub descriptor_page : ℕ → ℕ
descriptor_page k = kernel_physical_pages / 4096 + 16 * k

-- Once PM_LoadZoneRange has mapped 16 pages for the descriptors of a block of 4 MiB, PM_GetPage
-- finds the descriptor of every address in the block. The tables for the 16 pages exist, and no
-- two stretches of 2 MiB share one; nothing but the entries of tables changes.
pub pm_get_page-mapped :
    (alloc : Act ℕ) (k p flags : ℕ) (m : Machine)
    → IsSeparate m
    → k < 2 ^ 22
    → p + 16 ≤ 2 ^ 36
    → ((w : ℕ) → descriptor_page k ≤ w → w < descriptor_page k + 16 → table_of m w ≢ 0)
    → (entries : ℕ → ℕ → Entry) × (map_virtual_address alloc
          (p * 4096)
          (descriptor_of (k * page_max_size))
          16
          flags
          m
        ≡ ok tt (record m { entries = entries }))
      × ((phys : ℕ)
          → phys / page_max_size ≡ k
          → pm_get_page phys (record m { entries = entries })
            ≡ ok (descriptor_of phys) (record m { entries = entries }))
pm_get_page-mapped alloc k p flags m separate small frames tables =
    let v = descriptor_page k in
    let kv : IsKernel v = record { above = omega arith; below = omega arith } in
    let (entries, run, pages) =
      convert_virt_to_phys-mapped alloc 16 p v flags m separate kv (omega arith) frames tables in
    let here : descriptor_of (k * page_max_size) ≡ v * 4096 = omega arith in
    (
      entries,
      rw here run,
      λ phys block.
          let i = phys / 4096 % 1024 / 64 in
          let off = phys / 4096 % 64 * 64 in
          let split : descriptor_of phys ≡ (v + i) * 4096 + off = omega (arith, block) in
          pm_get_page-there phys (record m { entries = entries })
            (ap (λ a. is_page_present a (record m { entries = entries })) split
              ∙ (pages i off (omega arith) (omega arith)).1),
    )
