-- ===== src/Paging/Clashes.antt =====
-- Where the marks of paging.c say more than the range that is marked.
use cubik_os.Prelude.{
  ℕ, ◌+◌, ◌-◌, ◌*◌, ◌/◌, ◌%◌, ◌^◌, ◌≤◌, ◌<◌, ◌≡◌, ◌≢◌, inr, Bool, true, false, ◌==◌, u16, u64,
  arith, ◌∙◌, bit_or,
}
use cubik_os.Prelude.Bits.{bit_or_step, bit_or-zero}
use cubik_os.Bytes.{Bytes, load64, store64, load64-store64, load-store_apart}
use cubik_os.Machine.{Machine, ok}
use cubik_os.Paging.Marks.{
  one_shl, mark_page, mark_pages, vm_mark_pages_used, vm_mark_pages_free, vm_free_pages,
  kernel_virtual_base,
}
use cubik_os.Paging.Used.{Marks, Marking, IsUsed, address_of, vm_mark_pages_used-Marking}

-- For a process that is not the kernel, VM_FreePages of pages below 32768, where the first
-- pointer of the bitmap does not overlap with its marks, marks each page of the range as in
-- use.
pub vm_free_pages-Marking :
    (bitmap marks page n : ℕ) (m : Machine)
    → Marks bitmap marks m.bytes
    → page + n ≤ 32768
    → (m' : Bytes) × (vm_free_pages bitmap false (address_of false page) n m
        ≡ ok tt (record m { bytes = m' }))
      × Marking bitmap marks page n m.bytes m'
unfolding vm_free_pages vm_mark_pages_free vm_mark_pages_used
vm_free_pages-Marking bitmap marks page n m h small =
    vm_mark_pages_used-Marking bitmap marks page n false m h small

-- The first 32 pages of a word have the same marks as its last 32: where the first pointer of
-- the bitmap does not overlap with its marks, VM_MarkPagesUsed on one of those pages, below
-- page 32768, marks the page 32 above it as well.
pub vm_mark_pages_used-twin :
    (bitmap marks page : ℕ) (is_kernel : Bool) (m : Machine)
    → Marks bitmap marks m.bytes
    → page < 32768
    → page % 64 < 32
    → (m' : Bytes) × (vm_mark_pages_used bitmap is_kernel (address_of is_kernel page) 1 m
        ≡ ok tt (record m { bytes = m' }))
      × IsUsed marks (page + 32) m'
unfolding one_shl
vm_mark_pages_used-twin bitmap marks page is_kernel m h lt low =
    let (m', run, done) =
      vm_mark_pages_used-Marking bitmap marks page 1 is_kernel m h (omega arith) in
    let word : (page + 32) / 64 ≡ page / 64 = omega arith in
    let bit : one_shl ((page + 32) % 64) ≡ one_shl (page % 64) =
      let e : (page + 32) % 64 % 32 ≡ page % 64 % 32 = omega arith in rw e in
    (m', run, rw (word, bit) (done.within page (omega arith) (omega arith)))

-- Where the first pointer of the kernel's bitmap is to the bitmap itself, at an even address
-- that is not 0, VM_MarkPagesUsed on the kernel's first page adds 1 to that pointer.
pub vm_mark_pages_used-overlap :
    (bitmap : ℕ) (m : Machine)
    → load64 bitmap m.bytes ≡ bitmap
    → bitmap ≢ 0
    → bitmap % 2 ≡ 0
    → bitmap < 2 ^ 64
    → (m' : Bytes) × (vm_mark_pages_used bitmap true kernel_virtual_base 1 m
        ≡ ok tt (record m { bytes = m' }))
      × (load64 bitmap m' ≡ bitmap + 1)
unfolding vm_mark_pages_used mark_pages mark_page one_shl
vm_mark_pages_used-overlap bitmap m self some even small =
    let start : u64 (kernel_virtual_base + 2 ^ 64 - kernel_virtual_base) / 4096 ≡ 0 = omega arith in
    let here : bitmap + 8 * 0 ≡ bitmap = omega arith in
    let there : (bitmap == 0) ≡ false = ground (arith, some) in
    (
      store64 bitmap (bit_or bitmap 1) m.bytes,
      rw (here, self, there, here, self),
      load64-store64 bitmap (bit_or bitmap 1) m.bytes
          ∙ omega (arith, bit_or_step bitmap 1, bit_or-zero (bitmap / 2)),
    )

-- The index of the word is not taken within the 512 words of a pointer: VM_MarkPagesUsed on a
-- page from 32768 and below 2 ^ 22, whose pointer is not NULL, changes none of the 512 words
-- that the pointer is to.
pub vm_mark_pages_used-beyond :
    (bitmap page sub : ℕ) (m : Machine)
    → 32768 ≤ page
    → page < 2 ^ 22
    → sub < 512
    → load64 (bitmap + 8 * (page / 32768)) m.bytes ≢ 0
    → (m' : Bytes) × (vm_mark_pages_used bitmap false (page * 4096) 1 m
        ≡ ok tt (record m { bytes = m' }))
      × (load64 (load64 (bitmap + 8 * (page / 32768)) m.bytes + 8 * sub) m'
          ≡ load64 (load64 (bitmap + 8 * (page / 32768)) m.bytes + 8 * sub) m.bytes)
unfolding vm_mark_pages_used mark_pages mark_page
vm_mark_pages_used-beyond bitmap page sub m lo hi within some =
    let marks = load64 (bitmap + 8 * (page / 32768)) m.bytes in
    let at = marks + 8 * (page / 64) in
    let set = bit_or (load64 at m.bytes) (one_shl (page % 64)) in
    let start : page * 4096 / 4096 ≡ page = omega arith in
    let block : u16 (page / 32768) ≡ page / 32768 = omega arith in
    let word : u16 (page / 64) ≡ page / 64 = omega arith in
    let there : (marks == 0) ≡ false = ground (arith, some) in
    (
      store64 at set m.bytes,
      rw (start, block, word, there),
      load-store_apart 8 8 at (marks + 8 * sub) set m.bytes (inr (omega arith)),
    )
