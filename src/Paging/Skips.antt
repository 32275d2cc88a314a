-- ===== src/Paging/Skips.antt =====
-- A full word of marks within the pages that VM_AllocatePages counts.
use cubik_os.Prelude.{
  ℕ, ◌+◌, ◌-◌, ◌*◌, ◌^◌, ◌≡◌, refl, Bool, arith, ◌∙◌, ap, bit_and, sym, Bool-cases, ◌==◌, inl, inr,
}
use cubik_os.Bytes.{Bytes, load64}
use cubik_os.Machine.{Machine, Act, ok}
use cubik_os.Paging.Marks.{
  one_shl, found, on, scan_bit, scan_bits, scan_word, scan_words, vm_allocate_pages,
}
use cubik_os.Paging.Used.{Marks, Marking, IsUsed, address_of, vm_mark_pages_used-Marking}
use cubik_os.Paging.First.{
  mark-of, full-mark, scan_word-full, scan_words-on, scan_words-found, found_run,
}
use cubik_os.Paging.Runs.{IsUnmarked}

-- A word whose first 31 pages are in use: its last page is the first of the run.
scan_word-last : scan_word (2 ^ 31 - 1) 2 0 0 0 ≡ on (63 * 4096) 1
unfolding scan_word scan_bits scan_bit one_shl
scan_word-last = refl

-- One unused page is missing, and the word has it in front.
scan_word-ends :
    (word first : ℕ)
    → bit_and word (one_shl 0) ≡ 0
    → scan_word word 2 first (63 * 4096) 1 ≡ found (63 * 4096)
unfolding scan_word scan_bits scan_bit
scan_word-ends word first free = elim (Bool-cases (word == 2 ^ 64 - 1)) [
  | inl full ↦ let e : 2 ^ 64 - 1 ≡ word = ground arith in absurd (full-mark 0 (rw e free))
  | inr ne ↦ rw (ne, free) refl
]

module _ (marks : ℕ) (m : Machine) (first_word : load64 marks m.bytes ≡ 2 ^ 31 - 1)
    (second_word : load64 (marks + 8) m.bytes ≡ 2 ^ 64 - 1) where
  scan_words-skips :
      IsUnmarked marks 128 m.bytes → scan_words marks 2 0 512 0 0 0 m ≡ found (63 * 4096)
  scan_words-skips free =
      let third : bit_and (load64 (marks + 8 * 2) m.bytes) (one_shl 0) ≡ 0 =
        sym (mark-of marks 2 0 m.bytes (omega arith)) ∙ free in
      scan_words-on marks 2 511 0 0 0 (63 * 4096) 1 m (first ∙ scan_word-last)
      ∙ scan_words-on marks 2 510 1 (63 * 4096) 1 (63 * 4096) 1 m
          (second ∙ scan_word-full 2 64 (63 * 4096) 1)
      ∙ scan_words-found marks 2 509 2 (63 * 4096) 1 (63 * 4096) m
          (scan_word-ends (load64 (marks + 8 * 2) m.bytes) 128 third)
    where
      first :
          scan_word (load64 (marks + 8 * 0) m.bytes) 2 (0 * 64) 0 0 ≡ scan_word (2 ^ 31 - 1) 2 0 0 0
      first = ap (λ w. scan_word w 2 0 0 0) (ap (λ a. load64 a m.bytes) (omega arith) ∙ first_word)

      second :
          scan_word (load64 (marks + 8 * 1) m.bytes) 2 (1 * 64) (63 * 4096) 1
          ≡ scan_word (2 ^ 64 - 1) 2 64 (63 * 4096) 1
      second = ap (λ w. scan_word w 2 64 (63 * 4096) 1) second_word

  second-IsUsed : IsUsed marks 64 m.bytes
  second-IsUsed = rw second_word (full-mark 0)

-- VM_AllocatePages gives out a page that is in use already: for two pages, when page 63 is the last
-- one of the first word of marks, whose first 31 pages are in use, the whole second word is in
-- use, and page 128 is not, the result is the address of page 63, although page 64 behind it is in
-- use. Both are then in use.
pub vm_allocate_pages-skips :
    (alloc : Act ℕ) (bitmap marks : ℕ) (is_kernel : Bool) (m : Machine)
    → Marks bitmap marks m.bytes
    → load64 marks m.bytes ≡ 2 ^ 31 - 1
    → load64 (marks + 8) m.bytes ≡ 2 ^ 64 - 1
    → IsUnmarked marks 128 m.bytes
    → IsUsed marks 64 m.bytes
      × (m' : Bytes) × (vm_allocate_pages alloc bitmap is_kernel 2 m
          ≡ ok (address_of is_kernel 63) (record m { bytes = m' }))
      × Marking bitmap marks 63 2 m.bytes m'
vm_allocate_pages-skips alloc bitmap marks is_kernel m h first_word second_word free =
    let (m', marked, done) =
      vm_mark_pages_used-Marking bitmap marks 63 2 is_kernel m h (omega arith) in
    (
      second-IsUsed marks m first_word second_word,
      m',
      found_run alloc bitmap marks 2 63 is_kernel m (record m { bytes = m' }) h (omega arith)
          (scan_words-skips marks m first_word second_word free) marked,
      done,
    )
