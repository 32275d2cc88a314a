-- ===== src/Malloc/Several.antt =====
-- Several pages for the kernel, and translation through them.
use native.Mathlib.Nat.{pow-le-pow_right, pow-suc, one-le-pow}
use cubik_os.Prelude.{
  ℕ, suc, ◌+◌, ◌*◌, ◌%◌, ◌^◌, ◌≤◌, ◌<◌, ◌≡◌, refl, ◌≢◌, true, some, u32, u64, arith, ◌∙◌, ap,
  dec_lt,
}
use cubik_os.Memory
use cubik_os.Memory.{Frame, Store, null}
use cubik_os.Machine.{Machine, Act, ok}
use cubik_os.Page.Size.{page_size_align, page_size_align-least, page_size_order-log2}
use cubik_os.Page.Buddy.{pm_allocate_pages}
use cubik_os.Paging.Tables.{convert_virt_to_phys}
use cubik_os.Paging.Mapping.{
  IsKernel, IsSeparate, table_of, map_virtual_address-Mapped, Mapped-translated,
}
use cubik_os.Paging.Used.{Marks, IsUsed, address_of}
use cubik_os.Paging.Runs.{IsFirstRun}
use cubik_os.Paging.Several.{IsOpen, vm_allocate_pages-several}
use cubik_os.Malloc.Defs.{allocate_pages, order_of}
use cubik_os.Malloc.Single.{kernel_page, joined, counted_translation}

-- The exponent of a power of two is determined by bounds that it doubles at most.
power_unique : (a j k : ℕ) → a ≤ 2 ^ j → 2 ^ k < 2 * a → k ≤ j
power_unique a j k lo hi = elim (dec_lt j k) [
  | yes lt ↦ absurd (
      omega
        (arith, lo, hi, pow-suc 2 j, pow-le-pow_right {n = 2} (omega arith) {i = suc j} {j = k} lt))
  | no more ↦ omega (arith, more)
]

-- AllocatePages rounds its amount to the power of two above.
pub page_size_align-power :
    (amount o : ℕ)
    → 0 < amount
    → amount ≤ 2 ^ o
    → 2 ^ o < 2 * amount
    → amount ≤ 2 ^ 32
    → page_size_align amount ≡ 2 ^ o
page_size_align-power amount o positive lo hi small =
    let (k, rounded, lo', hi') = page_size_align-least amount positive small in
    let same : k ≡ o =
      omega (arith, power_unique amount o k lo hi', power_unique amount k o lo' hi) in
    rounded ∙ ap (λ e. 2 ^ e) same

order_of-power : (o : ℕ) (m : Machine) → o ≤ 10 → order_of (2 ^ o) m ≡ ok o m
unfolding order_of
order_of-power o m le =
    let bound : 2 ^ o ≤ 1024 = pow-le-pow_right {n = 2} (omega arith) {i = o} {j = 10} le in
    let (r, found, lo, hi, few) =
      page_size_order-log2 (2 ^ o) (one-le-pow o 2 (omega arith)) bound in
    let same : r ≡ o = elim (dec_lt r o) [
      | yes lt ↦
          absurd (omega (arith, hi, pow-le-pow_right {n = 2} (omega arith) {i = suc r} {j = o} lt))
      | no more ↦
          omega
            (arith, more, power_unique (2 ^ r) o r lo (omega (arith, one-le-pow r 2 (omega arith))))
    ] in
    rw (order_of, found, same) refl

-- AllocatePages for the kernel, of an amount up to 1024 that is rounded to the power of two `2 ^ o`
-- above it, at least 2. PM_AllocatePages gives a descriptor `p` for the order `o`, whose address is
-- that of a frame, so that the block is below 64 GiB; the first pointer of the bitmap does not overlap
-- with its marks; the first run of so many unused pages from page 1 on starts at `page`, and from
-- some word of marks on, before which all are full, none is full up to the run's end; there are tables for the run, and no two stretches of 2 MiB share one. Then the result is the
-- kernel's address of `page`, each address in the run is translated to the frame at the same
-- offset, all its pages are in use, and the page allocator is as PM_AllocatePages left it.
pub allocate_pages-several :
    (fuel bitmap marks amount o page full p phys : ℕ) (f : Frame) (after : Store) (m : Machine)
    → amount ≤ 2 ^ o
    → 2 ^ o < 2 * amount
    → 1 ≤ o
    → o ≤ 10
    → pm_allocate_pages o m.store ≡ Memory.ok p after
    → p ≢ null
    → after.frames p ≡ some f
    → f.addr ≡ phys * 4096
    → phys + 2 ^ o ≤ 2 ^ 24
    → Marks bitmap marks m.bytes
    → page + 2 ^ o ≤ 32768
    → IsFirstRun marks (2 ^ o) page m.bytes
    → IsOpen marks full (page + 2 ^ o) m.bytes
    → IsSeparate m
    → ((w : ℕ) → kernel_page page ≤ w → w < kernel_page page + 2 ^ o → table_of m w ≢ 0)
    → (m' : Machine) × (allocate_pages (suc fuel) bitmap amount m ≡ ok (address_of true page) m')
      × ((i off : ℕ)
          → i < 2 ^ o
          → off < 4096
          → convert_virt_to_phys (address_of true page + i * 4096 + off) m'
            ≡ f.addr + i * 4096 + off)
      × ((q : ℕ) → page ≤ q → q < page + 2 ^ o → IsUsed marks q m'.bytes)
      × (m'.store ≡ after)
allocate_pages-several fuel bitmap marks amount o page full p phys f after m lo hi o_pos o_le taken
      some_page here aligned small h lt run open_words separate tables =
    let n = 2 ^ o in
    let two : 2 ≤ n = pow-le-pow_right {n = 2} (omega arith) {i = 1} {j = o} o_pos in
    let m1 : Machine = record m { store = after } in
    let alloc : Act ℕ = allocate_pages fuel bitmap 1 in
    let (bytes, marked, done) =
      vm_allocate_pages-several alloc bitmap marks n page full true m1 h two lt run open_words in
    let m2 : Machine = record m1 { bytes = bytes } in
    let v = kernel_page page in
    let at : address_of true page ≡ v * 4096 = omega arith in
    let kv : IsKernel v = record { above = omega arith; below = omega arith } in
    let mapping =
      map_virtual_address-Mapped alloc n phys v 7 m2 separate kv (omega arith) (omega arith)
        tables in
    let m3 : Machine = record m2 { entries = mapping.entries } in
    let rounded : page_size_align amount ≡ n =
      page_size_align-power amount o (omega arith) lo hi (omega arith) in
    (
      record m3 {
        memory_allocated = u64 (m.memory_allocated + n * 4096);
        pages = u32 (m.pages + n);
      },
      joined fuel bitmap amount n o p (address_of true page) (phys * 4096) (v * 4096) f after m m2
          m3 rounded (order_of-power o m o_le) taken some_page here marked aligned at mapping.run,
      (λ i off lt' in_page.
          counted_translation (address_of true page + i * 4096 + off) ((v + i) * 4096 + off)
            ((phys + i) * 4096 % 2 ^ 36 + off) (f.addr + i * 4096 + off)
            (u64 (m.memory_allocated + n * 4096)) (u32 (m.pages + n)) m3 (omega arith)
            (Mapped-translated alloc n phys v 7 m2 kv (omega arith) (omega arith) tables mapping i
              off lt' in_page).0
            (omega (arith, aligned))),
      done.within,
      refl,
    )
