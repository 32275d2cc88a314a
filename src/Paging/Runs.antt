-- ===== src/Paging/Runs.antt =====
-- What VM_AllocatePages has counted when it scans for several pages.
use cubik_os.Prelude.{
  ℕ, ◌+◌, ◌-◌, ◌*◌, ◌%◌, ◌≤◌, ◌<◌, ◌≡◌, refl, ◌⊎◌, inl, inr, arith, bit_and, ℕ_discrete, subst,
}
use cubik_os.Bytes.{Bytes}
use cubik_os.Paging.Marks.{one_shl, on, scan_bit}
use cubik_os.Paging.Used.{IsUsed, word_of}

-- A page that VM_AllocatePages takes for a free one.
abbrev pub IsUnmarked : ℕ → ℕ → Bytes → Type 0
IsUnmarked marks page m = bit_and (word_of marks page m) (one_shl (page % 64)) ≡ 0

-- The first run of `amount` unused pages from page 1 on starts at `page`.
pub record IsFirstRun (marks amount page : ℕ) (m : Bytes) : Type 0 where
  pub positive : 1 ≤ page
  pub unused : (q : ℕ) → page ≤ q → q < page + amount → IsUnmarked marks q m
  pub first : (t : ℕ) → 1 ≤ t → t < page → (q : ℕ) × (t ≤ q) × (q < t + amount) × IsUsed marks q m

-- What the scan has counted when it comes to the page `p`: the unused pages from `start` on.
pub record Counted (marks amount : ℕ) (m : Bytes) (p virt left : ℕ) : Type 0 where
  pub start : ℕ
  pub at_most : start ≤ p
  pub behind : (1 ≤ start) ⊎ (p ≡ 0)
  pub unused : (q : ℕ) → start ≤ q → q < p → IsUnmarked marks q m
  pub before : (start ≤ 1) ⊎ IsUsed marks (start - 1) m
  pub short : p < start + amount
  pub state :
      ((start ≡ p) × (virt ≡ 0))
      ⊎ ((start < p) × (virt ≡ start * 4096) × (left + (p - start) ≡ amount))

module _ (marks amount page : ℕ) (m : Bytes) (several : 2 ≤ amount) (small : page + amount ≤ 32768)
    (run : IsFirstRun marks amount page m) where
  -- Where the run ends, the scan has counted it from its start.
  pub Counted-start :
      (p virt left : ℕ)
      → p + 1 ≡ page + amount
      → (c : Counted marks amount m p virt left) → c.start ≡ page
  Counted-start p virt left last c = elim (ℕ_discrete c.start page) [
    | yes e ↦ e
    | no other ↦ elim c.before [
      | inl low ↦ absurd (omega (arith, low, c.short, run.positive, last, other))
      | inr used ↦ absurd (
          used (
            run.unused (c.start - 1) (omega (arith, c.short, last, other))
              (omega (arith, c.at_most, last, other))))
    ]
  ]

  -- Before it ends, the pages counted are too few.
  Counted-few :
      (p virt left : ℕ)
      → p + 1 < page + amount
      → (c : Counted marks amount m p virt left) → IsUnmarked marks p m
      → p + 1 ≡ c.start + amount
      → 1 ≤ c.start
      → ⊥
  Counted-few p virt left lt c free full positive =
      let (q, lo, hi, used) = run.first c.start positive (omega arith) in
      elim (ℕ_discrete q p) [
        | yes e ↦ used (subst (λ r. IsUnmarked marks r m) (omega arith) free)
        | no other ↦ used (c.unused q lo (omega (arith, hi, full, other)))
      ]

  -- A page in use: the count starts anew behind it.
  pub Counted-used :
      (p virt left : ℕ)
      → Counted marks amount m p virt left
      → IsUsed marks p m
      → Counted marks amount m (p + 1) 0 left
  Counted-used p virt left c used = record {
    start = p + 1;
    at_most = omega arith;
    behind = inl (omega arith);
    unused = λ q lo hi. absurd (omega arith);
    before = inr (subst (λ r. IsUsed marks r m) (omega arith) used);
    short = omega (arith, several);
    state = inl (refl, refl);
  }

  grown :
      (p virt left : ℕ)
      → (c : Counted marks amount m p virt left) → IsUnmarked marks p m
      → (q : ℕ) → c.start ≤ q
      → q < p + 1
      → IsUnmarked marks q m
  grown p virt left c free q lo hi = elim (ℕ_discrete q p) [
    | yes e ↦ subst (λ r. IsUnmarked marks r m) (omega arith) free
    | no other ↦ c.unused q lo (omega arith)
  ]

  -- An unused page before the end of the run: what the round leaves.
  pub Counted-unused :
      (p virt left : ℕ)
      → Counted marks amount m p virt left
      → IsUnmarked marks p m
      → p + 1 < page + amount
      → (virt' : ℕ) × (left' : ℕ) × ((word first bit : ℕ)
          → first + bit ≡ p
          → bit_and word (one_shl bit) ≡ 0
          → scan_bit word amount first bit virt left ≡ on virt' left')
        × Counted marks amount m (p + 1) virt' left'
  unfolding scan_bit
  Counted-unused p virt left c free lt = elim c.state [
    | inl (here, none) ↦ elim (ℕ_discrete p 0) [
      | yes zero_page ↦ (
        0,
        amount - 1,
        λ word first bit same zero_mark. ground (arith, small),
        record {
          start = 1;
          at_most = omega arith;
          behind = inl (omega arith);
          unused = λ q lo hi. absurd (omega arith);
          before = inl (omega arith);
          short = omega arith;
          state = inl (omega arith, refl);
        },
      )
      | no other ↦ (
        p * 4096,
        amount - 1,
        λ word first bit same zero_mark. ground (arith, small),
        record {
          start = c.start;
          at_most = omega (arith, c.at_most);
          behind = inl (omega arith);
          unused = grown p virt left c free;
          before = c.before;
          short = omega (arith, several);
          state = inr (omega arith, omega arith, omega arith);
        },
      )
    ]
    | inr (less, some, count) ↦
        let positive : 1 ≤ c.start = ground (arith, c.behind) in
        let more : p + 1 < c.start + amount =
          ground (arith, c.short, Counted-few p virt left lt c free, positive) in
        (
          virt,
          left - 1,
          λ word first bit same zero_mark. ground (arith, small, positive, more),
          record {
            start = c.start;
            at_most = omega (arith, c.at_most);
            behind = inl positive;
            unused = grown p virt left c free;
            before = c.before;
            short = more;
            state = inr (omega arith, some, omega arith);
          },
        )
  ]
