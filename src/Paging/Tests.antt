-- ===== src/Paging/Tests.antt =====
-- The page tables and the marks run on small memories.
use cubik_os.Prelude.{
  ℕ, zero, suc, ◌≡◌, ◌+◌, ◌-◌, ◌*◌, ◌%◌, ◌<◌, ◌^◌, ◌==◌, inl, true, false, if◌then◌else◌, some,
  none, refl, arith, bit_and,
}
use cubik_os.Memory.{Store}
use cubik_os.Bytes.{Bytes, load, load64}
use cubik_os.Machine.{Entry, Machine, Act, ok, fault}
use cubik_os.Paging.Tables.{map_virtual_address, convert_virt_to_phys, is_page_present}
use cubik_os.Paging.Mapping.{
  IsKernel, IsSeparate, Mapped, map_virtual_address-Mapped, convert_virt_to_phys-mapped,
}
use cubik_os.Paging.Marks.{one_shl, vm_free_pages, vm_allocate_pages}
use cubik_os.Paging.Used.{Marks, Marking, IsUsed, word_of, address_of}
use cubik_os.Paging.First.{vm_allocate_pages-first}
use cubik_os.Paging.Runs.{IsUnmarked, IsFirstRun}
use cubik_os.Paging.First.{full-mark}
use cubik_os.Paging.Marks.{vm_mark_pages_used}
use cubik_os.Paging.Used.{vm_mark_pages_used-Marking}
use cubik_os.Prelude.{◌%◌, dec_lt, ap, ◌∙◌, ◌/◌}
use cubik_os.Paging.Several.{IsOpen, vm_allocate_pages-several}
use cubik_os.Paging.Skips.{vm_allocate_pages-skips}
use cubik_os.Prelude.{◌≤◌, ◌≢◌, ltb, subst, sym, ℕ_discrete}
use cubik_os.Paging.Clashes.{vm_free_pages-Marking}

abbrev no_store : Store
no_store = record { nodes = λ a. none; frames = λ a. none; count = λ k. 0; pf_freelist = 0 }

abbrev no_entry : Entry
no_entry = record { present = false; writable = false; usr = false; addr = 0 }

-- One table for each stretch of 2 MiB, and the memory `bytes`.
abbrev machine : Bytes → Machine
machine bytes = record {
  store = no_store;
  pointers = λ i j. 4096 * (i * 512 + j + 1);
  entries = λ t i. no_entry;
  dirs = λ i j. no_entry;
  bytes = bytes;
  memory_allocated = 0;
  pages = 0;
}

abbrev no_alloc : Act ℕ
no_alloc m = fault

-- The pointer 5000 at 16, and no mark.
abbrev sample : Bytes
sample a = if a == 16 then 136 else if a == 17 then 19 else 0

sample-Marks : Marks 16 5000 sample
unfolding load
sample-Marks = record {
  pointer = refl;
  some = omega arith;
  apart = inl (omega arith);
  bytes = λ a. ground arith;
}

-- The page at KERNEL_VIRTUAL_BASE
abbrev first_page : ℕ
first_page = 2 ^ 52 - 2 ^ 19

first_page-IsKernel : IsKernel first_page
first_page-IsKernel = record { above = omega arith; below = omega arith }

machine-IsSeparate : IsSeparate (machine sample)
machine-IsSeparate v w kv kw same some_table =
    omega (arith, same, kv.above, kv.below, kw.above, kw.below)

map_virtual_address-Mapped_example : Mapped (machine sample) 256 first_page 700 3 no_alloc
map_virtual_address-Mapped_example =
    map_virtual_address-Mapped no_alloc 700 256 first_page 3 (machine sample) machine-IsSeparate
      first_page-IsKernel (omega arith) (omega arith) (λ w lo hi. omega arith)

-- The frames of the range lie on both sides of 64 GiB.
convert_virt_to_phys-mapped_example :
    (entries : ℕ → ℕ → Entry) × (map_virtual_address no_alloc
        (16776866 * 4096)
        (first_page * 4096)
        700
        3
        (machine sample)
      ≡ ok tt (record (machine sample) { entries = entries }))
    × ((i off : ℕ)
        → i < 700
        → off < 4096
        → (convert_virt_to_phys
              ((first_page + i) * 4096 + off)
              (record (machine sample) { entries = entries })
            ≡ (16776866 + i) * 4096 % 2 ^ 36 + off)
          × (is_page_present
                ((first_page + i) * 4096 + off)
                (record (machine sample) { entries = entries })
              ≡ some true))
convert_virt_to_phys-mapped_example =
    convert_virt_to_phys-mapped no_alloc 700 16776866 first_page 3 (machine sample)
      machine-IsSeparate first_page-IsKernel (omega arith) (omega arith) (λ w lo hi. omega arith)

vm_mark_pages_used-Marking_example :
    (m' : Bytes) × (vm_mark_pages_used 16 true (address_of true 62) 4 (machine sample)
      ≡ ok tt (machine m'))
    × Marking 16 5000 62 4 sample m'
vm_mark_pages_used-Marking_example =
    vm_mark_pages_used-Marking 16 5000 62 4 true (machine sample) sample-Marks (omega arith)

-- The pages 0 to 2 of the memory below are in use.
abbrev used_three : Bytes
used_three a = if a == 5000 then 7 else sample a

used_three-Marks : Marks 16 5000 used_three
unfolding load
used_three-Marks = record {
  pointer = refl;
  some = omega arith;
  apart = inl (omega arith);
  bytes = λ a. ground arith;
}

IsUsed-below : (r : ℕ) → r < 3 → IsUsed 5000 r used_three
unfolding load one_shl
IsUsed-below zero lt = omega arith
IsUsed-below (suc zero) lt = omega arith
IsUsed-below (suc (suc zero)) lt = omega arith
IsUsed-below (suc (suc (suc r))) lt = absurd (omega arith)

free_three : bit_and (word_of 5000 3 used_three) (one_shl (3 % 64)) ≡ 0
unfolding load one_shl
free_three = refl

vm_allocate_pages-first_example :
    (m' : Bytes) × (vm_allocate_pages no_alloc 16 true 1 (machine used_three)
      ≡ ok (address_of true 3) (machine m'))
    × Marking 16 5000 3 1 used_three m'
vm_allocate_pages-first_example =
    vm_allocate_pages-first no_alloc 16 5000 3 true (machine used_three) used_three-Marks
      (omega arith) free_three IsUsed-below

-- The first word of marks is full, and so are the marks of the pages 64 to 66: the pages 67 and 68
-- are the first run of two.
abbrev full_first : Bytes
full_first a =
    if ltb a 5000 then sample a else if ltb a 5008 then 255 else if a == 5008 then 7 else 0

full_first-Marks : Marks 16 5000 full_first
unfolding load
full_first-Marks = record {
  pointer = refl;
  some = omega arith;
  apart = inl (omega arith);
  bytes = λ a. ground arith;
}

full_first-words : (load64 5000 full_first ≡ 2 ^ 64 - 1) × (load64 5008 full_first ≡ 7)
unfolding load
full_first-words = (refl, refl)

word_of-at :
    (sub r w : ℕ)
    → r / 64 ≡ sub
    → load64 (5000 + 8 * sub) full_first ≡ w
    → word_of 5000 r full_first ≡ w
word_of-at sub r w at here =
    ap (λ i. load64 (5000 + 8 * i) full_first) {x = r / 64} {y = sub} at ∙ here

mark_seven : (bit : ℕ) → bit < 3 → bit_and 7 (one_shl bit) ≢ 0
unfolding one_shl
mark_seven zero lt = omega arith
mark_seven (suc zero) lt = omega arith
mark_seven (suc (suc zero)) lt = omega arith
mark_seven (suc (suc (suc r))) lt = absurd (omega arith)

full_first-IsUsed : (r : ℕ) → r < 67 → IsUsed 5000 r full_first
full_first-IsUsed r lt = elim (dec_lt r 64) [
  | yes low ↦
      let e = word_of-at 0 r (2 ^ 64 - 1) (omega arith) (full_first-words).0 in
      subst (λ w. bit_and w (one_shl (r % 64)) ≢ 0) (sym e) (full-mark (r % 64))
  | no high ↦
      let e = word_of-at 1 r 7 (omega arith) (full_first-words).1 in
      subst (λ w. bit_and w (one_shl (r % 64)) ≢ 0) (sym e) (mark_seven (r % 64) (omega arith))
]

full_first-IsUnmarked : (q : ℕ) → 67 ≤ q → q < 67 + 2 → IsUnmarked 5000 q full_first
unfolding load one_shl
full_first-IsUnmarked q lo hi = elim (ℕ_discrete q 67) [
  | yes e ↦ subst (λ r. IsUnmarked 5000 r full_first) (sym e) refl
  | no other ↦ subst (λ r. IsUnmarked 5000 r full_first) {x = 68} {y = q} (omega arith) last
]
  where
    last : IsUnmarked 5000 68 full_first
    last = refl

full_first-IsFirstRun : IsFirstRun 5000 2 67 full_first
full_first-IsFirstRun = record {
  positive = omega arith;
  unused = full_first-IsUnmarked;
  first = λ t lo hi. (t, omega arith, omega arith, full_first-IsUsed t hi);
}

full_first-IsOpen : IsOpen 5000 1 69 full_first
full_first-IsOpen = record {
  filled = λ sub lt.
      ap (λ i. load64 (5000 + 8 * i) full_first) {x = sub} {y = 0} (omega arith)
      ∙ (full_first-words).0;
  opened = λ sub le lt full. omega (
    arith,
    sym (full_first-words).1
        ∙ ap (λ i. load64 (5000 + 8 * i) full_first) {x = 1} {y = sub} (omega arith)
        ∙ full,
  );
}

vm_allocate_pages-several_example :
    (m' : Bytes) × (vm_allocate_pages no_alloc 16 true 2 (machine full_first)
      ≡ ok (address_of true 67) (machine m'))
    × Marking 16 5000 67 2 full_first m'
vm_allocate_pages-several_example =
    vm_allocate_pages-several no_alloc 16 5000 2 67 1 true (machine full_first) full_first-Marks
      (omega arith) (omega arith) full_first-IsFirstRun full_first-IsOpen

-- The first word has 31 marks, and the second one all.
abbrev full_second : Bytes
full_second a =
    if ltb a 5000
    then sample a
    else if ltb a 5003
    then 255
    else if a == 5003
    then 127
    else if ltb a 5008
    then 0
    else if ltb a 5016
    then 255
    else 0

full_second-Marks : Marks 16 5000 full_second
unfolding load
full_second-Marks = record {
  pointer = refl;
  some = omega arith;
  apart = inl (omega arith);
  bytes = λ a. ground arith;
}

full_second-words :
    (load64 5000 full_second ≡ 2 ^ 31 - 1)
    × (load64 5008 full_second ≡ 2 ^ 64 - 1)
    × IsUnmarked 5000 128 full_second
unfolding load one_shl
full_second-words = (refl, refl, refl)

vm_allocate_pages-skips_example :
    IsUsed 5000 64 full_second
    × (m' : Bytes) × (vm_allocate_pages no_alloc 16 true 2 (machine full_second)
        ≡ ok (address_of true 63) (machine m'))
    × Marking 16 5000 63 2 full_second m'
vm_allocate_pages-skips_example =
    vm_allocate_pages-skips no_alloc 16 5000 true (machine full_second) full_second-Marks
      (full_second-words).0 (full_second-words).1 (full_second-words).2

vm_free_pages-Marking_example :
    (m' : Bytes) × (vm_free_pages 16 false (address_of false 7) 2 (machine sample)
      ≡ ok tt (machine m'))
    × Marking 16 5000 7 2 sample m'
vm_free_pages-Marking_example =
    vm_free_pages-Marking 16 5000 7 2 (machine sample) sample-Marks (omega arith)

-- The pointer 5000 at 5000 itself.
abbrev own_pointer : Bytes
own_pointer a = if a == 5000 then 136 else if a == 5001 then 19 else 0

own_pointer_self : load64 5000 own_pointer ≡ 5000
unfolding load
own_pointer_self = refl
