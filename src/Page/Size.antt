-- ===== src/Page/Size.antt =====
-- Kernel/src/mm/page.c: page_size_align and page_size_order.
use native.Mathlib.Nat.{pow-suc, pow-le-pow_right}
use cubik_os.Prelude.{
  ℕ, zero, suc, ◌+◌, ◌-◌, ◌*◌, ◌/◌, ◌^◌, ◌≤◌, ◌<◌, ◌≡◌, refl, sym, ap, ◌∙◌, bit_or, arith, Option,
  none, some, ltb, if◌then◌else◌, u8, u64, dec_lt, lt→ltb,
}
use cubik_os.Prelude.Bits.{
  shr, shr-suc, bit_or-half, bit_or_assoc, bit_or-ones, bit_or-zero, zero-bit_or,
}

abbrev pub page_max_order : ℕ
page_max_order = 10

abbrev pub arch_page_size : ℕ
arch_page_size = 4096

abbrev pub page_max_size : ℕ
page_max_size = 4 * 1024 * 1024

-- `size |= size >> k`
unfoldable pub smear : ℕ → ℕ → ℕ
smear k s = bit_or s (shr s k)

unfoldable pub page_size_align : ℕ → ℕ
page_size_align size =
    u64 (smear 16 (smear 8 (smear 4 (smear 2 (smear 1 (u64 (size + 2 ^ 64 - 1)))))) + 1)

-- The loop of page_size_order, on fuel: `none` means that the fuel ran out.
unfoldable pub order_loop : ℕ → ℕ → ℕ → ℕ → Option ℕ
order_loop zero m_size order size = none
order_loop (suc f) m_size order size =
    let rest = order_loop f (m_size / 2) (u8 (order + 255)) size in
    if ltb size m_size then rest else some order

-- Eleven halvings take 1024 to 0, where the loop ends for every size.
unfoldable pub page_size_order : ℕ → Option ℕ
page_size_order size = order_loop 12 (page_max_size / arch_page_size) page_max_order size

-- The union of the first `n` right shifts of `x`.
spread : ℕ → ℕ → ℕ
spread zero x = 0
spread (suc n) x = bit_or x (spread n (x / 2))

spread-half : (n x : ℕ) → spread n x / 2 ≡ spread n (x / 2)
unfolding spread
spread-half zero x = refl
spread-half (suc n) x =
    bit_or-half x (spread n (x / 2)) ∙ ap (bit_or (x / 2)) (spread-half n (x / 2))

spread-one : (x : ℕ) → spread 1 x ≡ x
unfolding spread
spread-one x = bit_or-zero x

-- Two runs of shifts, the second begun where the first ends.
spread-add : (n m k x : ℕ) → n + m ≡ k → bit_or (spread n x) (shr (spread m x) n) ≡ spread k x
unfolding spread
spread-add zero m k x e = let e' : m ≡ k = omega arith in rw (e', zero-bit_or) (ground arith)
spread-add (suc n) m zero x e = absurd (omega arith)
spread-add (suc n) m (suc k) x e =
    simp (shr-suc, spread-half, bit_or_assoc, spread-add n m k (x / 2) (omega arith))

spread-zero : (n : ℕ) → spread n 0 ≡ 0
unfolding spread
spread-zero zero = refl
spread-zero (suc n) = rw (spread-zero n)

-- A number of exactly `k + 1` bits, spread over as many shifts, is all ones.
spread-ones : (n k x : ℕ) → k < n → 2 ^ k ≤ x → x < 2 ^ suc k → spread n x ≡ 2 ^ suc k - 1
unfolding spread
spread-ones zero k x lt lo hi = absurd (omega arith)
spread-ones (suc n) zero x lt lo hi =
    let e : x ≡ 1 = omega arith in rw e (ground (arith, spread-zero n))
spread-ones (suc n) (suc k) x lt lo hi = ground (
  arith,
  pow-suc 2 k,
  pow-suc 2 (suc k),
  spread-ones n k (x / 2),
  bit_or-ones (suc k) 1 (x - 2 ^ suc k),
)

smear-spread : (n m x : ℕ) → n + n ≡ m → smear n (spread n x) ≡ spread m x
unfolding smear
smear-spread n m x e = spread-add n n m x e

smear-one : (x : ℕ) → smear 1 x ≡ spread 2 x
smear-one x = ap (smear 1) (sym (spread-one x)) ∙ smear-spread 1 2 x refl

-- The five steps of page_size_align together.
smears-spread : (x : ℕ) → smear 16 (smear 8 (smear 4 (smear 2 (smear 1 x)))) ≡ spread 32 x
smears-spread x = rw (
  smear-one,
  smear-spread 2 4 x refl,
  smear-spread 4 8 x refl,
  smear-spread 8 16 x refl,
  smear-spread 16 32 x refl,
)

-- The position of the highest bit.
log2_of : (n x : ℕ) → 0 < x → x < 2 ^ n → (k : ℕ) × (k < n) × (2 ^ k ≤ x) × (x < 2 ^ suc k)
log2_of zero x pos hi = absurd (omega arith)
log2_of (suc n) x pos hi = elim (dec_lt x (2 ^ n)) [
  | yes below ↦ let (k, lt, lo, hi') = log2_of n x pos below in (k, omega arith, lo, hi')
  | no above ↦ (n, omega arith, omega arith, hi)
]

page_size_align-one : page_size_align 1 ≡ 1
unfolding page_size_align smear
page_size_align-one = refl

-- For a size from 1 to 2 ^ 32, page_size_align gives the least power of two that is not below it.
pub page_size_align-least :
    (size : ℕ)
    → 0 < size
    → size ≤ 2 ^ 32
    → (k : ℕ) × (page_size_align size ≡ 2 ^ k) × (size ≤ 2 ^ k) × (2 ^ k < 2 * size)
unfolding page_size_align
page_size_align-least size pos hi = elim (dec_lt 1 size) [
  | yes more ↦
      let (k, lt, lo, up) = log2_of 32 (size - 1) (omega arith) (omega arith) in
      let dec : u64 (size + 2 ^ 64 - 1) ≡ size - 1 = omega arith in
      (
        suc k,
        rw (dec, smears-spread, spread-ones 32 k (size - 1) lt lo up)
            (omega (
              arith,
              pow-suc 2 k,
              pow-le-pow_right {n = 2} (omega arith) {i = suc k} {j = 32} (omega arith),
            )),
        omega arith,
        omega (arith, pow-suc 2 k),
      )
  | no one ↦
      let e : size ≡ 1 = omega arith in rw e (0, page_size_align-one, omega arith, omega arith)
]

-- From order `o` the loop stops at the largest order whose block does not exceed the size.
order_loop_lem :
    (f o size : ℕ)
    → o < f
    → o < 255
    → 0 < size
    → size < 2 ^ suc o
    → (r : ℕ) × (order_loop f (2 ^ o) o size ≡ some r)
      × (2 ^ r ≤ size)
      × (size < 2 ^ suc r)
      × (r ≤ o)
unfolding order_loop
order_loop_lem zero o size lt small pos hi = absurd (omega arith)
order_loop_lem (suc f) zero size lt small pos hi =
    (0, ground arith, omega arith, omega arith, omega arith)
order_loop_lem (suc f) (suc o) size lt small pos hi = elim (dec_lt size (2 ^ suc o)) [
  | yes less ↦
      let (r, e, lo, up, le) = order_loop_lem f o size (omega arith) (omega arith) pos less in
      let half : 2 ^ suc o / 2 ≡ 2 ^ o = omega (arith, pow-suc 2 o) in
      let down : u8 (suc o + 255) ≡ o = omega arith in
      (r, rw (lt→ltb _ _ less, half, down) e, lo, up, omega arith)
  | no enough ↦ (suc o, ground arith, omega arith, hi, omega arith)
]

-- For 1 to 1024 pages, page_size_order is the largest order whose block does not exceed the size.
pub page_size_order-log2 :
    (size : ℕ)
    → 0 < size
    → size ≤ 1024
    → (r : ℕ) × (page_size_order size ≡ some r) × (2 ^ r ≤ size) × (size < 2 ^ suc r) × (r ≤ 10)
unfolding page_size_order
page_size_order-log2 size pos hi =
    order_loop_lem 12 10 size (omega arith) (omega arith) pos (omega arith)
