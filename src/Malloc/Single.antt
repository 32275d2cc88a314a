-- ===== src/Malloc/Single.antt =====
-- One page for the kernel, and translation through it.
use cubik_os.Prelude.{
  ℕ, suc, ◌+◌, ◌-◌, ◌*◌, ◌%◌, ◌^◌, ◌≤◌, ◌<◌, ◌≡◌, refl, ◌≢◌, true, false, ◌==◌, some, u32, u64,
  arith, ◌∙◌, ap, ap₂, bit_and,
}
use cubik_os.Memory
use cubik_os.Memory.{Frame, Store, null, load_frame, load_frame-ok}
use cubik_os.Machine.{Machine, Act, ok}
use cubik_os.Page.Size.{page_size_align, page_size_order, smear, order_loop}
use cubik_os.Page.Buddy.{pm_allocate_pages}
use cubik_os.Paging.Tables.{map_virtual_address, convert_virt_to_phys}
use cubik_os.Paging.Mapping.{
  IsKernel, IsSeparate, table_of, map_virtual_address-Mapped, Mapped-translated,
}
use cubik_os.Paging.Marks.{one_shl, vm_allocate_pages}
use cubik_os.Paging.Used.{Marks, IsUsed, word_of, address_of}
use cubik_os.Paging.First.{vm_allocate_pages-first}
use cubik_os.Malloc.Defs.{allocate_pages, account, order_of}

-- The number of a kernel page whose mark is `page`
abbrev pub kernel_page : ℕ → ℕ
kernel_page page = 2 ^ 52 - 2 ^ 19 + page

one_page : page_size_align 1 ≡ 1
unfolding page_size_align smear
one_page = refl

one_order : (m : Machine) → order_of 1 m ≡ ok 0 m
unfolding order_of page_size_order order_loop
one_order m = refl

-- The runs of the parts make the run of the whole, for `n` pages of order `o`.
pub joined :
    (fuel bitmap amount n o p virt a w : ℕ) (f : Frame) (after : Store) (m m1 m2 : Machine)
    → page_size_align amount ≡ n
    → order_of n m ≡ ok o m
    → pm_allocate_pages o m.store ≡ Memory.ok p after
    → p ≢ null
    → after.frames p ≡ some f
    → vm_allocate_pages (allocate_pages fuel bitmap 1) bitmap true n (record m { store = after })
      ≡ ok virt m1
    → f.addr ≡ a
    → virt ≡ w
    → map_virtual_address (allocate_pages fuel bitmap 1) a w n 7 m1 ≡ ok tt m2
    → allocate_pages (suc fuel) bitmap amount m
      ≡ ok virt (record m2 {
        memory_allocated = u64 (m2.memory_allocated + n * 4096);
        pages = u32 (m2.pages + n);
      })
unfolding allocate_pages account
joined fuel bitmap amount n o p virt a w f after m m1 m2 rounded order taken some_page here marked
      at_frame at_page mapped =
    let alloc = allocate_pages fuel bitmap 1 in
    let mapped' : map_virtual_address alloc f.addr virt n 7 m1 ≡ ok tt m2 =
      ap₂ (λ x y. map_virtual_address alloc x y n 7 m1) at_frame at_page ∙ mapped in
    let there : (p == 0) ≡ false = ground (arith, some_page) in
    rw (rounded, order, taken, there, load_frame-ok after p here, marked, mapped')

-- The counters have no part in the translation.
pub counted_translation :
    (virt v phys a x y : ℕ) (m : Machine)
    → virt ≡ v
    → convert_virt_to_phys v m ≡ phys
    → phys ≡ a
    → convert_virt_to_phys virt (record m { memory_allocated = x; pages = y }) ≡ a
unfolding convert_virt_to_phys
counted_translation virt v phys a x y m at h to = ap (λ t. convert_virt_to_phys t m) at ∙ h ∙ to

-- AllocatePages of one page for the kernel. PM_AllocatePages gives a descriptor `p` whose
-- address is that of a frame below 64 GiB, the first pointer of the bitmap does not overlap with its marks,
-- `page` is the first of them that is free, there is a table for that page, and no two
-- stretches of 2 MiB share a table. Then the result is the kernel's address of the page, each
-- address in it is translated to the frame at the same offset, the page is in use, and the
-- page allocator is as PM_AllocatePages left it.
pub allocate_pages-single :
    (fuel bitmap marks page p phys : ℕ) (f : Frame) (after : Store) (m : Machine)
    → pm_allocate_pages 0 m.store ≡ Memory.ok p after
    → p ≢ null
    → after.frames p ≡ some f
    → f.addr ≡ phys * 4096
    → phys < 2 ^ 24
    → Marks bitmap marks m.bytes
    → page < 32768
    → bit_and (word_of marks page m.bytes) (one_shl (page % 64)) ≡ 0
    → ((r : ℕ) → r < page → IsUsed marks r m.bytes)
    → IsSeparate m
    → table_of m (kernel_page page) ≢ 0
    → (m' : Machine) × (allocate_pages (suc fuel) bitmap 1 m ≡ ok (address_of true page) m')
      × ((off : ℕ)
          → off < 4096
          → convert_virt_to_phys (address_of true page + off) m' ≡ f.addr + off)
      × IsUsed marks page m'.bytes
      × (m'.store ≡ after)
allocate_pages-single fuel bitmap marks page p phys f after m taken some_page here aligned small h
      lt free used separate table =
    let m1 : Machine = record m { store = after } in
    let alloc : Act ℕ = allocate_pages fuel bitmap 1 in
    let (bytes, marked, done) =
      vm_allocate_pages-first alloc bitmap marks page true m1 h lt free used in
    let m2 : Machine = record m1 { bytes = bytes } in
    let v = kernel_page page in
    let at : address_of true page ≡ v * 4096 = omega arith in
    let kv : IsKernel v = record { above = omega arith; below = omega arith } in
    let tables : (w : ℕ) → v ≤ w → w < v + 1 → table_of m2 w ≢ 0 =
      λ w lo hi. only v w table lo hi in
    let mapping =
      map_virtual_address-Mapped alloc 1 phys v 7 m2 separate kv (omega arith) (omega arith)
        tables in
    (
      record m2 {
        entries = mapping.entries;
        memory_allocated = u64 (m.memory_allocated + 4096);
        pages = u32 (m.pages + 1);
      },
      joined fuel bitmap 1 1 0 p (address_of true page) (phys * 4096) (v * 4096) f after m m2
          (record m2 { entries = mapping.entries }) one_page (one_order m) taken some_page here
          marked aligned at mapping.run,
      (λ off in_page.
          counted_translation (address_of true page + off) ((v + 0) * 4096 + off)
            ((phys + 0) * 4096 % 2 ^ 36 + off) (f.addr + off) (u64 (m.memory_allocated + 4096))
            (u32 (m.pages + 1)) (record m2 { entries = mapping.entries }) (omega arith)
            (Mapped-translated alloc 1 phys v 7 m2 kv (omega arith) (omega arith) tables mapping 0
              off (omega arith) in_page).0
            (omega (arith, aligned))),
      done.within page (omega arith) (omega arith),
      refl,
    )
  where
    only : (v w : ℕ) → table_of m v ≢ 0 → v ≤ w → w < v + 1 → table_of m w ≢ 0
    only v w h lo hi = let e : v ≡ w = omega arith in rw (← e) h
