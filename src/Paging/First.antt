-- ===== src/Paging/First.antt =====
-- The page that VM_AllocatePages takes: the scan for one page.
use cubik_os.Prelude.{
  ℕ, zero, suc, ◌+◌, ◌-◌, ◌*◌, ◌/◌, ◌%◌, ◌^◌, ◌≤◌, ◌<◌, ◌≡◌, refl, ◌≢◌, inl, inr, Bool, true, false,
  ◌==◌, u64, arith, ◌∙◌, ap, bit_and, Bool-cases,
}
use cubik_os.Prelude.Bits.{bit_and_comm, bit_and-ones}
use cubik_os.Bytes.{Bytes, load64}
use cubik_os.Machine.{Machine, Act, ok}
use cubik_os.Paging.Marks.{
  one_shl, found, on, scan_bit, scan_bits, scan_word, scan_words, scan_blocks, ensure_marks,
  vm_allocate_pages, kernel_virtual_base, vm_mark_pages_used,
}
use cubik_os.Paging.Used.{
  Marks, Marking, IsUsed, word_of, one_shl-bounds, address_of, vm_mark_pages_used-Marking,
}

-- The mark `bit` of a word.
abbrev mark : ℕ → ℕ → ℕ
mark word bit = bit_and word (one_shl bit)

-- A round that starts with no page counted.
scan_bit-used :
    (word first bit left : ℕ) → mark word bit ≢ 0 → scan_bit word 1 first bit 0 left ≡ on 0 left
unfolding scan_bit
scan_bit-used word first bit left used = ground arith

scan_bit-free :
    (word first bit left : ℕ)
    → mark word bit ≡ 0
    → scan_bit word 1 first bit 0 left ≡ found ((first + bit) * 4096)
unfolding scan_bit
scan_bit-free word first bit left free = ground arith

scan_bits-used :
    (word first n bit left : ℕ)
    → ((b : ℕ) → bit ≤ b → b < bit + n → mark word b ≢ 0)
    → scan_bits word 1 first n bit 0 left ≡ on 0 left
unfolding scan_bits
scan_bits-used word first zero bit left used = refl
scan_bits-used word first (suc n) bit left used =
    rw (scan_bit-used word first bit left (used bit (omega arith) (omega arith)))
      (scan_bits-used word first n (bit + 1) left (λ b lo hi. used b (omega arith) (omega arith)))

scan_bits-free :
    (word first n bit left d : ℕ)
    → d < n
    → mark word (bit + d) ≡ 0
    → ((b : ℕ) → bit ≤ b → b < bit + d → mark word b ≢ 0)
    → scan_bits word 1 first n bit 0 left ≡ found ((first + (bit + d)) * 4096)
unfolding scan_bits
scan_bits-free word first zero bit left d lt free used = absurd (omega arith)
scan_bits-free word first (suc n) bit left zero lt free used =
    let e : bit + 0 ≡ bit = omega arith in
    let h : mark word bit ≡ 0 = rw (← e) free in rw (scan_bit-free word first bit left h, e)
scan_bits-free word first (suc n) bit left (suc d) lt free used =
    let e : bit + suc d ≡ bit + 1 + d = omega arith in
    let h : mark word (bit + 1 + d) ≡ 0 = rw (← e) free in
    rw (scan_bit-used word first bit left (used bit (omega arith) (omega arith)), e)
      (scan_bits-free word first n (bit + 1) left d (omega arith) h
        (λ b lo hi. used b (omega arith) (omega arith)))

-- Whether it is skipped or not, a word without a free page leaves the scan as it was.
scan_word-used :
    (word first left : ℕ)
    → ((b : ℕ) → b < 64 → mark word b ≢ 0)
    → scan_word word 1 first 0 left ≡ on 0 left
unfolding scan_word
scan_word-used word first left used =
    ground (arith, scan_bits-used word first 64 0 left (λ b lo hi. used b hi))

-- A full word is skipped.
pub scan_word-full :
    (amount first virt left : ℕ) → scan_word (2 ^ 64 - 1) amount first virt left ≡ on virt left
unfolding scan_word
scan_word-full amount first virt left = refl

pub full-mark : (bit : ℕ) → mark (2 ^ 64 - 1) bit ≢ 0
full-mark bit = ground (
  arith,
  bit_and_comm (2 ^ 64 - 1) (one_shl bit),
  bit_and-ones 64 (one_shl bit),
  one_shl-bounds bit,
)

scan_word-free :
    (word first left bit : ℕ)
    → bit < 64
    → mark word bit ≡ 0
    → ((b : ℕ) → b < bit → mark word b ≢ 0)
    → scan_word word 1 first 0 left ≡ found ((first + bit) * 4096)
unfolding scan_word
scan_word-free word first left bit lt free used = elim (Bool-cases (word == 2 ^ 64 - 1)) [
  | inl full ↦ let e : 2 ^ 64 - 1 ≡ word = ground arith in absurd (full-mark bit (rw e free))
  | inr ne ↦
      let z : 0 + bit ≡ bit = omega arith in
      rw (ne, ← z)
        (scan_bits-free word first 64 0 left bit lt (rw z free) (λ b lo hi. used b (omega arith)))
]

-- The page `b` of the word `sub`.
pub mark-of :
    (marks sub b : ℕ) (m : Bytes)
    → b < 64
    → bit_and (word_of marks (sub * 64 + b) m) (one_shl ((sub * 64 + b) % 64))
      ≡ mark (load64 (marks + 8 * sub) m) b
mark-of marks sub b m lt =
    let e : (sub * 64 + b) / 64 ≡ sub = omega arith in
    let f : (sub * 64 + b) % 64 ≡ b = omega arith in rw (e, f)

used-mark :
    (marks sub b : ℕ) (m : Bytes)
    → b < 64
    → IsUsed marks (sub * 64 + b) m
    → mark (load64 (marks + 8 * sub) m) b ≢ 0
used-mark marks sub b m lt used = rw (← (mark-of marks sub b m lt)) used

-- A round of the loop over the words.
pub scan_words-on :
    (marks amount n sub virt left virt' left' : ℕ) (m : Machine)
    → scan_word (load64 (marks + 8 * sub) m.bytes) amount (sub * 64) virt left ≡ on virt' left'
    → scan_words marks amount 0 (suc n) sub virt left m
      ≡ scan_words marks amount 0 n (sub + 1) virt' left' m
unfolding scan_words
scan_words-on marks amount n sub virt left virt' left' m scan =
    let first : 0 * 32768 + sub * 64 ≡ sub * 64 = omega arith in rw (first, scan) refl

pub scan_words-found :
    (marks amount n sub virt left start : ℕ) (m : Machine)
    → scan_word (load64 (marks + 8 * sub) m.bytes) amount (sub * 64) virt left ≡ found start
    → scan_words marks amount 0 (suc n) sub virt left m ≡ found start
unfolding scan_words
scan_words-found marks amount n sub virt left start m scan =
    let first : 0 * 32768 + sub * 64 ≡ sub * 64 = omega arith in rw (first, scan) refl

scan_words-free :
    (marks n sub left d bit : ℕ) (m : Machine)
    → d < n
    → bit < 64
    → mark (load64 (marks + 8 * (sub + d)) m.bytes) bit ≡ 0
    → ((r : ℕ) → sub * 64 ≤ r → r < (sub + d) * 64 + bit → IsUsed marks r m.bytes)
    → scan_words marks 1 0 n sub 0 left m ≡ found (((sub + d) * 64 + bit) * 4096)
unfolding scan_words
scan_words-free marks zero sub left d bit m lt in_word free used = absurd (omega arith)
scan_words-free marks (suc n) sub left zero bit m lt in_word free used =
    let e : sub + 0 ≡ sub = omega arith in
    let f : 0 * 32768 + sub * 64 ≡ sub * 64 = omega arith in
    let h : mark (load64 (marks + 8 * sub) m.bytes) bit ≡ 0 = rw (← e) free in
    rw (e, f)
      (rw
        (scan_word-free (load64 (marks + 8 * sub) m.bytes) (sub * 64) left bit in_word h (λ b lo.
          used-mark marks sub b m.bytes (omega arith)
            (used (sub * 64 + b) (omega arith) (omega arith))))
        refl)
scan_words-free marks (suc n) sub left (suc d) bit m lt in_word free used =
    let e : sub + suc d ≡ sub + 1 + d = omega arith in
    let f : 0 * 32768 + sub * 64 ≡ sub * 64 = omega arith in
    let h : mark (load64 (marks + 8 * (sub + 1 + d)) m.bytes) bit ≡ 0 = rw (← e) free in
    rw
      (
        e,
        f,
        scan_word-used (load64 (marks + 8 * sub) m.bytes) (sub * 64) left (λ b lo.
            used-mark marks sub b m.bytes lo (used (sub * 64 + b) (omega arith) (omega arith))),
      )
      (scan_words-free marks n (sub + 1) left d bit m (omega arith) in_word h
        (λ r lo hi. used r (omega arith) (omega arith)))

pub scan_blocks-found :
    (alloc : Act ℕ) (bitmap marks amount n start : ℕ) (m : Machine)
    → Marks bitmap marks m.bytes
    → scan_words marks amount 0 512 0 0 0 m ≡ found start
    → scan_blocks alloc bitmap amount (suc n) 0 0 0 m ≡ ok (found start) m
unfolding scan_blocks ensure_marks
scan_blocks-found alloc bitmap marks amount n start m h scan =
    let here : bitmap + 8 * 0 ≡ bitmap = omega arith in
    let there : (marks == 0) ≡ false = ground (arith, h.some) in
    rw (here, h.pointer, there, there, scan)

pub found_run :
    (alloc : Act ℕ) (bitmap marks amount page : ℕ) (is_kernel : Bool) (m m' : Machine)
    → Marks bitmap marks m.bytes
    → page < 32768
    → scan_words marks amount 0 512 0 0 0 m ≡ found (page * 4096)
    → vm_mark_pages_used bitmap is_kernel (address_of is_kernel page) amount m ≡ ok tt m'
    → vm_allocate_pages alloc bitmap is_kernel amount m ≡ ok (address_of is_kernel page) m'
unfolding vm_allocate_pages
found_run alloc bitmap marks amount page true m m' h lt scan run =
    let e : u64 (page * 4096 + kernel_virtual_base) ≡ kernel_virtual_base + page * 4096 =
      omega arith in
    rw (scan_blocks-found alloc bitmap marks amount 15 (page * 4096) m h scan, e, run)
found_run alloc bitmap marks amount page false m m' h lt scan run =
    let e : page * 4096 ≡ 0 + page * 4096 = omega arith in
    rw (scan_blocks-found alloc bitmap marks amount 4095 (page * 4096) m h scan, e, run)
      (ap (λ (t : ℕ). ok t m') (omega arith))

-- VM_AllocatePages for one page, where the first pointer of the bitmap does not overlap with
-- its marks and these have a free page: the result is the address of the first free page,
-- which is then in use, as is every page that was, and no memory but the marks changes.
pub vm_allocate_pages-first :
    (alloc : Act ℕ) (bitmap marks page : ℕ) (is_kernel : Bool) (m : Machine)
    → Marks bitmap marks m.bytes
    → page < 32768
    → bit_and (word_of marks page m.bytes) (one_shl (page % 64)) ≡ 0
    → ((r : ℕ) → r < page → IsUsed marks r m.bytes)
    → (m' : Bytes) × (vm_allocate_pages alloc bitmap is_kernel 1 m
        ≡ ok (address_of is_kernel page) (record m { bytes = m' }))
      × Marking bitmap marks page 1 m.bytes m'
vm_allocate_pages-first alloc bitmap marks page is_kernel m h lt free used =
    let q : (0 + page / 64) * 64 + page % 64 ≡ page = omega arith in
    let e : page / 64 ≡ 0 + page / 64 = omega arith in
    let scan : scan_words marks 1 0 512 0 0 0 m ≡ found (page * 4096) =
      scan_words-free marks 512 0 0 (page / 64) (page % 64) m (omega arith) (omega arith)
        (rw (← e) free) (λ r lo hi. used r (omega arith))
      ∙ rw q in
    let (m', run, done) =
      vm_mark_pages_used-Marking bitmap marks page 1 is_kernel m h (omega arith) in
    (
      m',
      found_run alloc bitmap marks 1 page is_kernel m (record m { bytes = m' }) h lt scan run,
      done,
    )
