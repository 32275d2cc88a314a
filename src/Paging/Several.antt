-- ===== src/Paging/Several.antt =====
-- The pages that VM_AllocatePages takes: the scan for several pages.
use cubik_os.Prelude.{
  ℕ, zero, suc, ◌+◌, ◌-◌, ◌*◌, ◌/◌, ◌%◌, ◌^◌, ◌≤◌, ◌<◌, ◌≡◌, refl, ◌≢◌, inl, inr, Bool, arith, ◌∙◌,
  bit_and, ℕ_discrete, dec_lt, subst, sym, ap,
}
use cubik_os.Bytes.{Bytes, load64}
use cubik_os.Machine.{Machine, Act, ok}
use cubik_os.Paging.Marks.{
  one_shl, found, on, scan_bit, scan_bits, scan_word, scan_words, vm_allocate_pages,
}
use cubik_os.Paging.Used.{Marks, Marking, IsUsed, address_of, vm_mark_pages_used-Marking}
use cubik_os.Paging.First.{
  mark-of, full-mark, scan_word-full, scan_words-on, scan_words-found, found_run,
}
use cubik_os.Paging.Runs.{IsFirstRun, Counted, Counted-start, Counted-used, Counted-unused}

module _ (marks amount page : ℕ) (m : Bytes) (several : 2 ≤ amount) (small : page + amount ≤ 32768)
    (run : IsFirstRun marks amount page m) where
  -- The word of the marks that the scan reads.
  abbrev word : ℕ → ℕ
  word sub = load64 (marks + 8 * sub) m

  scan_bit-used :
      (w first bit virt left : ℕ)
      → bit_and w (one_shl bit) ≢ 0
      → scan_bit w amount first bit virt left ≡ on 0 left
  unfolding scan_bit
  scan_bit-used w first bit virt left used = ground (arith, used)

  scan_bit-round :
      (sub bit virt left : ℕ)
      → bit < 64
      → sub * 64 + bit + 1 < page + amount
      → Counted marks amount m (sub * 64 + bit) virt left
      → (virt' : ℕ) × (left' : ℕ) × (scan_bit (word sub) amount (sub * 64) bit virt left
          ≡ on virt' left')
        × Counted marks amount m (sub * 64 + bit + 1) virt' left'
  scan_bit-round sub bit virt left narrow lt c =
      let same = mark-of marks sub bit m narrow in
      elim (ℕ_discrete (bit_and (word sub) (one_shl bit)) 0) [
        | yes zero_mark ↦
            let (virt', left', round, counted) =
              Counted-unused marks amount page m several small run (sub * 64 + bit) virt left c
                (same ∙ zero_mark) lt in
            (virt', left', round (word sub) (sub * 64) bit refl zero_mark, counted)
        | no other ↦ (
          0,
          left,
          scan_bit-used (word sub) (sub * 64) bit virt left other,
          Counted-used marks amount page m several small run (sub * 64 + bit) virt left c
              (subst (λ x. x ≢ 0) (sym same) other),
        )
      ]

  scan_bit-last :
      (sub bit virt left : ℕ)
      → bit < 64
      → sub * 64 + bit + 1 ≡ page + amount
      → Counted marks amount m (sub * 64 + bit) virt left
      → scan_bit (word sub) amount (sub * 64) bit virt left ≡ found (page * 4096)
  unfolding scan_bit
  scan_bit-last sub bit virt left narrow last c =
      let start =
        Counted-start marks amount page m several small run (sub * 64 + bit) virt left last c in
      let free : bit_and (word sub) (one_shl bit) ≡ 0 =
        sym (mark-of marks sub bit m narrow)
        ∙ run.unused (sub * 64 + bit) (omega (arith, several)) (omega arith) in
      elim c.state [
        | inl (here, none) ↦ absurd (omega (arith, start, here, last, several))
        | inr (less, some, count) ↦ ground (arith, free, start, some, count, run.positive, last)
      ]

  scan_bits-round :
      (sub n bit virt left : ℕ)
      → bit + n ≤ 64
      → sub * 64 + bit + n < page + amount
      → Counted marks amount m (sub * 64 + bit) virt left
      → (virt' : ℕ) × (left' : ℕ) × (scan_bits (word sub) amount (sub * 64) n bit virt left
          ≡ on virt' left')
        × Counted marks amount m (sub * 64 + (bit + n)) virt' left'
  unfolding scan_bits
  scan_bits-round sub zero bit virt left narrow lt c =
      (virt, left, refl, subst (λ p. Counted marks amount m p virt left) (omega arith) c)
  scan_bits-round sub (suc n) bit virt left narrow lt c =
      let (virt1, left1, one, counted) =
        scan_bit-round sub bit virt left (omega arith) (omega arith) c in
      let (virt2, left2, others, all) =
        scan_bits-round sub n (bit + 1) virt1 left1 (omega arith) (omega arith)
          (subst (λ p. Counted marks amount m p virt1 left1) (omega arith) counted) in
      (
        virt2,
        left2,
        rw one others,
        subst (λ p. Counted marks amount m p virt2 left2) (omega arith) all,
      )

  scan_bits-last :
      (sub n bit virt left : ℕ)
      → bit + n ≤ 64
      → sub * 64 + bit < page + amount
      → page + amount ≤ sub * 64 + bit + n
      → Counted marks amount m (sub * 64 + bit) virt left
      → scan_bits (word sub) amount (sub * 64) n bit virt left ≡ found (page * 4096)
  unfolding scan_bits
  scan_bits-last sub zero bit virt left narrow lt enough c = absurd (omega arith)
  scan_bits-last sub (suc n) bit virt left narrow lt enough c =
      elim (ℕ_discrete (sub * 64 + bit + 1) (page + amount)) [
        | yes last ↦ rw (scan_bit-last sub bit virt left (omega arith) last c) refl
        | no other ↦
            let (virt1, left1, one, counted) =
              scan_bit-round sub bit virt left (omega arith) (omega arith) c in
            rw one (
              scan_bits-last sub n (bit + 1) virt1 left1 (omega arith) (omega arith) (omega arith)
                (subst (λ p. Counted marks amount m p virt1 left1) (omega arith) counted))
      ]

-- The first words of marks, `full` of them, are full, and then none is up to the page `end`.
pub record IsOpen (marks full end : ℕ) (m : Bytes) : Type 0 where
  pub filled : (sub : ℕ) → sub < full → load64 (marks + 8 * sub) m ≡ 2 ^ 64 - 1
  pub opened : (sub : ℕ) → full ≤ sub → sub * 64 < end → load64 (marks + 8 * sub) m ≢ 2 ^ 64 - 1

-- Full words before the first page counted leave the scan as it was.
scan_words-filled :
    (marks amount n k sub : ℕ) (m : Machine)
    → ((i : ℕ) → sub ≤ i → i < sub + k → load64 (marks + 8 * i) m.bytes ≡ 2 ^ 64 - 1)
    → scan_words marks amount 0 (k + n) sub 0 0 m ≡ scan_words marks amount 0 n (sub + k) 0 0 m
scan_words-filled marks amount n zero sub m filled =
    ap (λ t. scan_words marks amount 0 t sub 0 0 m) {x = 0 + n} {y = n} (omega arith)
    ∙ ap (λ i. scan_words marks amount 0 n i 0 0 m) {x = sub} {y = sub + 0} (omega arith)
scan_words-filled marks amount n (suc k) sub m filled =
    ap (λ t. scan_words marks amount 0 t sub 0 0 m) {x = suc k + n} {y = suc (k + n)} (omega arith)
    ∙ scan_words-on marks amount (k + n) sub 0 0 0 0 m (
        ap (λ w. scan_word w amount (sub * 64) 0 0) (filled sub (omega arith) (omega arith))
        ∙ scan_word-full amount (sub * 64) 0 0)
    ∙ scan_words-filled marks amount n k (sub + 1) m
        (λ i lo hi. filled i (omega arith) (omega arith))
    ∙ ap (λ i. scan_words marks amount 0 n i 0 0 m) {x = sub + 1 + k} {y = sub + suc k}
        (omega arith)

module _ (marks amount page full : ℕ) (m : Machine) (several : 2 ≤ amount)
    (small : page + amount ≤ 32768) (run : IsFirstRun marks amount page m.bytes)
    (open_words : IsOpen marks full (page + amount) m.bytes) where
  -- A page of a full word is in use.
  filled-IsUsed : (p : ℕ) → p < full * 64 → IsUsed marks p m.bytes
  filled-IsUsed p lt = rw (open_words.filled (p / 64) (omega arith)) (full-mark (p % 64))

  run-behind : full * 64 ≤ page
  run-behind = elim (dec_lt page (full * 64)) [
    | yes lt ↦
        absurd (filled-IsUsed page lt (run.unused page (omega arith) (omega (arith, several))))
    | no more ↦ omega (arith, more)
  ]

  scan_word-bits :
      (sub virt left : ℕ)
      → full ≤ sub
      → sub * 64 < page + amount
      → scan_word (load64 (marks + 8 * sub) m.bytes) amount (sub * 64) virt left
        ≡ scan_bits (load64 (marks + 8 * sub) m.bytes) amount (sub * 64) 64 0 virt left
  unfolding scan_word
  scan_word-bits sub virt left behind lt = ground (arith, open_words.opened sub behind lt)

  scan_words-last :
      (n sub virt left : ℕ)
      → full ≤ sub
      → sub * 64 < page + amount
      → page + amount ≤ (sub + n) * 64
      → Counted marks amount m.bytes (sub * 64) virt left
      → scan_words marks amount 0 n sub virt left m ≡ found (page * 4096)
  scan_words-last zero sub virt left behind lt enough c = absurd (omega arith)
  scan_words-last (suc n) sub virt left behind lt enough c =
      let from : Counted marks amount m.bytes (sub * 64 + 0) virt left =
        subst (λ p. Counted marks amount m.bytes p virt left) (omega arith) c in
      elim (dec_lt (sub * 64 + 64) (page + amount)) [
        | yes more ↦
            let (virt1, left1, scan, counted) =
              scan_bits-round marks amount page m.bytes several small run sub 64 0 virt left
                (omega arith) (omega arith) from in
            scan_words-on marks amount n sub virt left virt1 left1 m
              (scan_word-bits sub virt left behind lt ∙ scan)
            ∙ scan_words-last n (sub + 1) virt1 left1 (omega arith) (omega arith) (omega arith)
                (subst (λ p. Counted marks amount m.bytes p virt1 left1) (omega arith) counted)
        | no last ↦ scan_words-found marks amount n sub virt left (page * 4096) m (
            scan_word-bits sub virt left behind lt
            ∙ scan_bits-last marks amount page m.bytes several small run sub 64 0 virt left
                (omega arith) (omega arith) (omega arith) from)
      ]

-- VM_AllocatePages for several pages, where the first pointer of the bitmap does not overlap with
-- its marks, and a run of as many unused pages lies within them, of which the first from page 1 on
-- starts at `page`, and from some word of marks on, before which all are full, none is full up to
-- the run's end: the result is the address of that run, all its pages are then in use, as is every page that was, and no memory but the marks
-- changes.
pub vm_allocate_pages-several :
    (alloc : Act ℕ) (bitmap marks amount page full : ℕ) (is_kernel : Bool) (m : Machine)
    → Marks bitmap marks m.bytes
    → 2 ≤ amount
    → page + amount ≤ 32768
    → IsFirstRun marks amount page m.bytes
    → IsOpen marks full (page + amount) m.bytes
    → (m' : Bytes) × (vm_allocate_pages alloc bitmap is_kernel amount m
        ≡ ok (address_of is_kernel page) (record m { bytes = m' }))
      × Marking bitmap marks page amount m.bytes m'
vm_allocate_pages-several alloc bitmap marks amount page full is_kernel m h several small run
      open_words =
    let behind = run-behind marks amount page full m several small run open_words in
    let none_yet : Counted marks amount m.bytes (full * 64) 0 0 = record {
      start = full * 64;
      at_most = omega arith;
      behind = elim (ℕ_discrete full 0) [ yes e ↦ inr (omega arith) | no some ↦ inl (omega arith) ];
      unused = λ q lo hi. absurd (omega arith);
      before = elim (ℕ_discrete full 0) [
        | yes e ↦ inl (omega arith)
        | no some ↦ inr (
            filled-IsUsed marks amount page full m several small run open_words (full * 64 - 1)
              (omega arith))
      ];
      short = omega arith;
      state = inl (refl, refl);
    } in
    let scan : scan_words marks amount 0 512 0 0 0 m ≡ found (page * 4096) =
      ap (λ t. scan_words marks amount 0 t 0 0 0 m) {x = 512} {y = full + (512 - full)}
        (omega (arith, behind, small, several))
      ∙ scan_words-filled marks amount (512 - full) full 0 m
          (λ i lo hi. open_words.filled i (omega arith))
      ∙ ap (λ i. scan_words marks amount 0 (512 - full) i 0 0 m) {x = 0 + full} {y = full}
          (omega arith)
      ∙ scan_words-last marks amount page full m several small run open_words (512 - full) full 0 0
          (omega arith) (omega (arith, behind, several)) (omega (arith, behind, small, several))
          none_yet in
    let (m', marked, done) =
      vm_mark_pages_used-Marking bitmap marks page amount is_kernel m h small in
    (
      m',
      found_run alloc bitmap marks amount page is_kernel m (record m { bytes = m' }) h (omega arith)
          scan marked,
      done,
    )
