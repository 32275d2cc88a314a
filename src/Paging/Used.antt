-- ===== src/Paging/Used.antt =====
-- The pages that VM_MarkPagesUsed marks, below page 32768: those of the first pointer.
use native.Mathlib.Nat.{pow-le-pow_right, one-le-pow}
use cubik_os.Prelude.{
  ℕ, zero, suc, ◌+◌, ◌-◌, ◌*◌, ◌/◌, ◌%◌, ◌^◌, ◌≤◌, ◌<◌, ◌≡◌, refl, ◌≢◌, ◌⊎◌, inl, inr, Bool, true,
  false, ◌==◌, if◌then◌else◌, u16, u64, arith, ◌∙◌, bit_and, bit_or, Bool-cases, update,
}
use cubik_os.Prelude.Bits.{bit_or-shr, bit_or-zero, bit_or-bit_and, bit_and-grows, shr}
use cubik_os.Bytes.{
  Bytes, load, store, load64, store64, load64-store64, load-store_apart, store-outside,
}
use cubik_os.Machine.{Machine, Outcome, ok}
use cubik_os.Paging.Marks.{one_shl, mark_page, mark_pages, vm_mark_pages_used, kernel_virtual_base}

-- Each cell of the memory holds a byte.
abbrev pub IsBytes : Bytes → Type 0
IsBytes m = (a : ℕ) → m a < 2 ^ 8

load64-lt : (a : ℕ) (m : Bytes) → IsBytes m → load64 a m < 2 ^ 64
unfolding load
load64-lt a m h =
    omega (arith, h a, h (a + 1), h (a + 2), h (a + 3), h (a + 4), h (a + 5), h (a + 6), h (a + 7))

store-IsBytes : (k a v : ℕ) (m : Bytes) → IsBytes m → IsBytes (store k a v m)
unfolding store
store-IsBytes zero a v m h = h
store-IsBytes (suc k) a v m h =
    store-IsBytes k (a + 1) (v / 2 ^ 8) (update m a (v % 2 ^ 8)) (λ b. ground (arith, h b))

bit_or-lt : (a b : ℕ) → a < 2 ^ 64 → b < 2 ^ 64 → bit_or a b < 2 ^ 64
bit_or-lt a b ha hb =
    let ea : shr a 64 ≡ 0 = omega arith in
    let eb : shr b 64 ≡ 0 = omega arith in
    let e : shr (bit_or a b) 64 ≡ 0 = bit_or-shr 64 a b ∙ rw (ea, eb) (bit_or-zero 0) in omega arith

pow-bounds : (k : ℕ) → k < 32 → (1 ≤ 2 ^ k) × (2 ^ k < 2 ^ 32)
pow-bounds k h =
    omega
      (arith, one-le-pow k 2, pow-le-pow_right {n = 2} (omega arith) {i = k} {j = 31} (omega arith))

pub one_shl-bounds : (b : ℕ) → (1 ≤ one_shl b) × (one_shl b < 2 ^ 64)
unfolding one_shl
one_shl-bounds b = ground (arith, pow-bounds (b % 32) (omega arith))

-- The first pointer of `bitmap` is to `marks`, which do not overlap with it.
pub record Marks (bitmap marks : ℕ) (m : Bytes) : Type 0 where
  pub pointer : load64 bitmap m ≡ marks
  pub some : marks ≢ 0
  pub apart : (bitmap + 8 ≤ marks) ⊎ (marks + 4096 ≤ bitmap)
  pub bytes : IsBytes m

-- The word with the mark of a page.
abbrev pub word_of : ℕ → ℕ → Bytes → ℕ
word_of marks page m = load64 (marks + 8 * (page / 64)) m

-- A page that VM_AllocatePages takes for one in use.
abbrev pub IsUsed : ℕ → ℕ → Bytes → Type 0
IsUsed marks page m = bit_and (word_of marks page m) (one_shl (page % 64)) ≢ 0

abbrev pub marked : ℕ → ℕ → Bytes → Bytes
marked marks page m =
    store64 (marks + 8 * (page / 64)) (bit_or (word_of marks page m) (one_shl (page % 64))) m

mark_page-ok :
    (bitmap marks page : ℕ) (m : Machine)
    → Marks bitmap marks m.bytes
    → page < 32768
    → mark_page bitmap page m ≡ ok tt (record m { bytes = marked marks page m.bytes })
unfolding mark_page
mark_page-ok bitmap marks page m h lt =
    let block : u16 (page / 32768) ≡ 0 = omega arith in
    let at : u16 (page / 64) ≡ page / 64 = omega arith in
    let here : bitmap + 8 * 0 ≡ bitmap = omega arith in
    let there : (marks == 0) ≡ false = ground (arith, h.some) in
    rw (block, at, here, h.pointer, there)

marked-word :
    (bitmap marks page q : ℕ) (m : Bytes)
    → Marks bitmap marks m
    → word_of marks q (marked marks page m) ≡ (
        if page / 64 == q / 64
        then bit_or (word_of marks page m) (one_shl (page % 64))
        else word_of marks q m)
marked-word bitmap marks page q m h = elim (Bool-cases (page / 64 == q / 64)) [
  | inl e ↦
      let at : marks + 8 * (page / 64) ≡ marks + 8 * (q / 64) = ground arith in
      rw (e, ← at)
        (load64-store64 (marks + 8 * (page / 64)) set m
          ∙ small set (
              bit_or-lt (word_of marks page m) (one_shl (page % 64))
                (load64-lt (marks + 8 * (page / 64)) m h.bytes) (one_shl-bounds (page % 64)).1))
  | inr ne ↦
      rw ne
        (load-store_apart 8 8 (marks + 8 * (page / 64)) (marks + 8 * (q / 64)) set m (ground arith))
]
  where
    set : ℕ
    set = bit_or (word_of marks page m) (one_shl (page % 64))

    small : (x : ℕ) → x < 2 ^ 64 → x % 2 ^ 64 ≡ x
    small x h = omega arith

marked-Marks :
    (bitmap marks page : ℕ) (m : Bytes)
    → Marks bitmap marks m
    → page < 32768
    → Marks bitmap marks (marked marks page m)
marked-Marks bitmap marks page m h lt = record {
  pointer =
      load-store_apart 8 8 (marks + 8 * (page / 64)) bitmap
        (bit_or (word_of marks page m) (one_shl (page % 64))) m (ground (arith, h.apart))
      ∙ h.pointer;
  some = h.some;
  apart = h.apart;
  bytes = store-IsBytes 8 _ _ m h.bytes;
}

-- The page itself is then in use, and so is every page that was.
marked-IsUsed :
    (bitmap marks page q : ℕ) (m : Bytes)
    → Marks bitmap marks m
    → (page ≡ q) ⊎ IsUsed marks q m
    → IsUsed marks q (marked marks page m)
marked-IsUsed bitmap marks page q m h used =
    let mask = one_shl (q % 64) in
    ground (
      arith,
      marked-word bitmap marks page q m h,
      used,
      one_shl-bounds (q % 64),
      bit_or-bit_and (word_of marks page m) mask,
      bit_and-grows (word_of marks page m) (one_shl (page % 64)) mask,
    )

-- What marking `n` pages from `page` on leaves behind.
pub record Marking (bitmap marks page n : ℕ) (m : Bytes) (m' : Bytes) : Type 0 where
  pub ready : Marks bitmap marks m'
  pub within : (q : ℕ) → page ≤ q → q < page + n → IsUsed marks q m'
  pub kept : (q : ℕ) → IsUsed marks q m → IsUsed marks q m'
  pub outside : (a : ℕ) → (a < marks) ⊎ (marks + 4096 ≤ a) → m' a ≡ m a

mark_pages-suc :
    (bitmap marks n page : ℕ) (m : Machine) (r : Outcome (Unit {0}))
    → Marks bitmap marks m.bytes
    → page < 32768
    → mark_pages bitmap (page + 1) n (record m { bytes = marked marks page m.bytes }) ≡ r
    → mark_pages bitmap page (suc n) m ≡ r
unfolding mark_pages
mark_pages-suc bitmap marks n page m r h lt rest =
    let next : u64 (page + 1) ≡ page + 1 = omega arith in
    rw (mark_page-ok bitmap marks page m h lt, next) rest

mark_pages-Marking :
    (bitmap marks n page : ℕ) (m : Machine)
    → Marks bitmap marks m.bytes
    → page + n ≤ 32768
    → (m' : Bytes) × (mark_pages bitmap page n m ≡ ok tt (record m { bytes = m' }))
      × Marking bitmap marks page n m.bytes m'
unfolding mark_pages
mark_pages-Marking bitmap marks zero page m h small = (
  m.bytes,
  refl,
  record {
    ready = h;
    within = λ q lo hi. absurd (omega arith);
    kept = λ q used. used;
    outside = λ a out. refl;
  },
)
mark_pages-Marking bitmap marks (suc n) page m h small =
    let m1 = marked marks page m.bytes in
    let (m', run, rest) =
      mark_pages-Marking bitmap marks n (page + 1) (record m { bytes = m1 })
        (marked-Marks bitmap marks page m.bytes h (omega arith)) (omega arith) in
    (
      m',
      mark_pages-suc bitmap marks n page m (ok tt (record m { bytes = m' })) h (omega arith) run,
      record {
        ready = rest.ready;
        within = λ q lo hi. elim (≤-cases page q lo) [
          | inl e ↦ rest.kept q (marked-IsUsed bitmap marks page q m.bytes h (inl e))
          | inr lt ↦ rest.within q lt (omega arith)
        ];
        kept = λ q used. rest.kept q (marked-IsUsed bitmap marks page q m.bytes h (inr used));
        outside = λ a out.
            rest.outside a out
            ∙ store-outside 8 (marks + 8 * (page / 64))
                (bit_or (word_of marks page m.bytes) (one_shl (page % 64))) m.bytes a
                (ground (arith, out));
      },
    )
  where
    ≤-cases : (a b : ℕ) → a ≤ b → (a ≡ b) ⊎ (a + 1 ≤ b)
    ≤-cases a b h = ground arith

-- The address of a page: the kernel's pages are numbered from KERNEL_VIRTUAL_BASE on.
abbrev pub address_of : Bool → ℕ → ℕ
address_of is_kernel page = (if is_kernel then kernel_virtual_base else 0) + page * 4096

-- VM_MarkPagesUsed on pages below 32768, where the pointer and the marks do not overlap: each
-- page of the range is in use afterwards, each page that was in use is, and no memory but the
-- marks changes.
pub vm_mark_pages_used-Marking :
    (bitmap marks page n : ℕ) (is_kernel : Bool) (m : Machine)
    → Marks bitmap marks m.bytes
    → page + n ≤ 32768
    → (m' : Bytes) × (vm_mark_pages_used bitmap is_kernel (address_of is_kernel page) n m
        ≡ ok tt (record m { bytes = m' }))
      × Marking bitmap marks page n m.bytes m'
unfolding vm_mark_pages_used
vm_mark_pages_used-Marking bitmap marks page n true m h small =
    let start : u64 (kernel_virtual_base + page * 4096 + 2 ^ 64 - kernel_virtual_base) / 4096
        ≡ page =
      omega arith in
    rw start (mark_pages-Marking bitmap marks n page m h small)
vm_mark_pages_used-Marking bitmap marks page n false m h small =
    let start : (0 + page * 4096) / 4096 ≡ page = omega arith in
    rw start (mark_pages-Marking bitmap marks n page m h small)
