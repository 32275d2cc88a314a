-- ===== src/Paging/Marks.antt =====
-- Kernel/arch/x86_64/paging.c: the marks of the virtual pages that are in use.
-- `m_VirtuaPagesBitmap` is an array of pointers at the address `bitmap`, and each pointer is to
-- 512 words of 64 marks. Only an access through NULL is a fault.
use cubik_os.Prelude.{
  ℕ, zero, suc, ◌+◌, ◌-◌, ◌*◌, ◌/◌, ◌%◌, ◌^◌, Bool, ◌==◌, if◌then◌else◌, u16, u64, bit_and, bit_or,
}
use cubik_os.Bytes.{load64, store64}
use cubik_os.Machine.{Machine, Act, ok, fault, pure, ◌>>=◌, ◌>>◌}

abbrev pub kernel_virtual_base : ℕ
kernel_virtual_base = 0xFFFFFFFF80000000

abbrev pub kernel_addr_space : ℕ
kernel_addr_space = 0xFFFFFF8000000000

-- `1 << bit_index`, an `int` that is then widened: the shift is by 5 bits, and bit 31 is the sign.
unfoldable pub one_shl : ℕ → ℕ
one_shl b = if b % 32 == 31 then 2 ^ 64 - 2 ^ 31 else 2 ^ (b % 32)

-- `marks[idx]`, and the address of `marks[ptr_index][word]`
abbrev pub marks_at : ℕ → ℕ → Machine → ℕ
marks_at bitmap idx m = load64 (bitmap + 8 * idx) m.bytes

-- `m_VirtuaPagesBitmap[ptr_index][pageIndex] |= (1 << bit_index)` for the page `page`
unfoldable pub mark_page : ℕ → ℕ → Act (Unit {0})
mark_page bitmap page m =
    let marks = marks_at bitmap (u16 (page / 32768)) m in
    let at = marks + 8 * u16 (page / 64) in
    if marks == 0
    then fault
    else ok tt
        (record m { bytes = store64 at (bit_or (load64 at m.bytes) (one_shl (page % 64))) m.bytes })

-- The loop that both functions have.
unfoldable pub mark_pages : ℕ → ℕ → ℕ → Act (Unit {0})
mark_pages bitmap page zero = pure tt
mark_pages bitmap page (suc amount) = do
  mark_page bitmap page
  mark_pages bitmap (u64 (page + 1)) amount

unfoldable pub vm_mark_pages_used : ℕ → Bool → ℕ → ℕ → Act (Unit {0})
vm_mark_pages_used bitmap is_kernel virt amount =
    let start = if is_kernel then u64 (virt + 2 ^ 64 - kernel_virtual_base) else virt in
    mark_pages bitmap (start / 4096) amount

unfoldable pub vm_mark_pages_free : ℕ → Bool → ℕ → ℕ → Act (Unit {0})
vm_mark_pages_free bitmap is_kernel virt amount =
    let start = if is_kernel then u64 (virt + 2 ^ 64 - kernel_addr_space) else virt in
    mark_pages bitmap (start / 4096) amount

unfoldable pub vm_free_pages : ℕ → Bool → ℕ → ℕ → Act (Unit {0})
vm_free_pages bitmap is_kernel virt amount = vm_mark_pages_free bitmap is_kernel virt amount

-- The state of the scan of VM_AllocatePages: `found virt` when enough pages are counted, or else
-- `virt` and `amount_left`.
pub data Scan : Type 0 where
  found : ℕ → Scan
  on : ℕ → ℕ → Scan

-- The rest of a loop, from what a round leaves.
abbrev pub go_on : Scan → (ℕ → ℕ → Scan) → Scan
go_on (found start) rest = found start
go_on (on virt left) rest = rest virt left

-- One bit of the word that starts at the page `first`.
unfoldable pub scan_bit : ℕ → ℕ → ℕ → ℕ → ℕ → ℕ → Scan
scan_bit word amount first bit virt left =
    if bit_and word (one_shl bit) == 0
    then (let start = if virt == 0 then (first + bit) * 4096 else virt in
        let rest = u64 ((if virt == 0 then amount else left) + 2 ^ 64 - 1) in
        if rest == 0 then found start else on start rest)
    else on 0 left

-- The loop over `bit_index`, with `n` rounds left.
unfoldable pub scan_bits : ℕ → ℕ → ℕ → ℕ → ℕ → ℕ → ℕ → Scan
scan_bits word amount first zero bit virt left = on virt left
scan_bits word amount first (suc n) bit virt left =
    go_on (scan_bit word amount first bit virt left)
      (λ virt' left'. scan_bits word amount first n (bit + 1) virt' left')

-- A full word is skipped, and the count goes on behind it.
unfoldable pub scan_word : ℕ → ℕ → ℕ → ℕ → ℕ → Scan
scan_word word amount first virt left =
    if word == 2 ^ 64 - 1 then on virt left else scan_bits word amount first 64 0 virt left

-- The loop over `sub_index`, with `n` rounds left.
unfoldable pub scan_words : ℕ → ℕ → ℕ → ℕ → ℕ → ℕ → ℕ → Machine → Scan
scan_words marks amount idx zero sub virt left m = on virt left
scan_words marks amount idx (suc n) sub virt left m =
    go_on (scan_word (load64 (marks + 8 * sub) m.bytes) amount (idx * 32768 + sub * 64) virt left)
      (λ virt' left'. scan_words marks amount idx n (sub + 1) virt' left' m)

-- A pointer that is NULL is set to a page of `alloc`, the call AllocatePages for one page, where
-- this gives one.
unfoldable pub ensure_marks : Act ℕ → ℕ → ℕ → Act ℕ
ensure_marks alloc bitmap idx m =
    if marks_at bitmap idx m == 0
    then ((do
      virt_mark ← alloc
      λ m'. ok virt_mark (
          if virt_mark == 0
          then m'
          else record m' { bytes = store64 (bitmap + 8 * idx) virt_mark m'.bytes }))
        m)
    else ok (marks_at bitmap idx m) m

-- The loop over `idx`, with `n` rounds left.
unfoldable pub scan_blocks : Act ℕ → ℕ → ℕ → ℕ → ℕ → ℕ → ℕ → Act Scan
scan_blocks alloc bitmap amount zero idx virt left m = ok (on virt left) m
scan_blocks alloc bitmap amount (suc n) idx virt left m =
    (do
      marks ← ensure_marks alloc bitmap idx
      λ m'. if marks == 0 then fault else elim (scan_words marks amount idx 512 0 virt left m') [
        | found start ↦ ok (found start) m'
        | on virt' left' ↦ scan_blocks alloc bitmap amount n (idx + 1) virt' left' m'
      ])
      m

unfoldable pub vm_allocate_pages : Act ℕ → ℕ → Bool → ℕ → Act ℕ
vm_allocate_pages alloc bitmap is_kernel amount = do
  scan ← scan_blocks alloc bitmap amount (if is_kernel then 16 else 16 * 256) 0 0 0
  (elim scan [
    | found start ↦
        (let virt = if is_kernel then u64 (start + kernel_virtual_base) else start in
          do vm_mark_pages_used bitmap is_kernel virt amount; pure virt)
    | on virt left ↦ pure 0
  ])
