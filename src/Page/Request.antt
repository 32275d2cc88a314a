-- ===== src/Page/Request.antt =====
-- Which list a request is served from: the search of PM_AllocatePages, and the order that
-- PM_Allocate asks for.
use native.Mathlib.Nat.{pow-le-pow_right, pow-suc, one-le-pow}
use cubik_os.Prelude.{
  ℕ, zero, suc, ◌+◌, ◌-◌, ◌*◌, ◌/◌, ◌^◌, ◌≤◌, ◌<◌, ◌≡◌, refl, ◌≢◌, arith, ltb, ◌==◌, none, some,
  false, dec_lt, ap, ◌∙◌,
}
use cubik_os.Memory.{Store, ok, null}
use cubik_os.Macros.{pow-add}
use cubik_os.Page.Size.{
  page_max_order, page_max_size, page_size_align, page_size_order, order_loop,
  page_size_align-least, page_size_order-log2,
}
use cubik_os.Page.Buddy.{find_order, pm_allocate_pages, pm_allocate}

pub find_order-none :
    (n i : ℕ) (count : ℕ → ℕ)
    → ((k : ℕ) → i ≤ k → k < i + n → count k ≡ 0)
    → find_order n i count ≡ none
unfolding find_order
find_order-none zero i count h = refl
find_order-none (suc n) i count h =
    rw (h i (omega arith) (omega arith))
      (find_order-none n (i + 1) count (λ k lo hi. h k (omega arith) (omega arith)))

-- The search stops at the first list that is not empty.
pub find_order-some :
    (n i m : ℕ) (count : ℕ → ℕ)
    → i ≤ m
    → m < i + n
    → ((k : ℕ) → i ≤ k → k < m → count k ≡ 0)
    → count m ≢ 0
    → find_order n i count ≡ some m
unfolding find_order
find_order-some zero i m count lo hi h ne = absurd (omega arith)
find_order-some (suc n) i m count lo hi h ne = elim (dec_lt i m) [
  | yes lt ↦ rw (h i (omega arith) lt) (
      find_order-some n (i + 1) m count (omega arith) (omega arith)
        (λ k lo' hi'. h k (omega arith) hi') ne)
  | no ge ↦ let e : i ≡ m = omega arith in rw e (ground arith)
]

-- When every list from the requested order on is empty, PM_AllocatePages returns NULL and
-- changes nothing; so it does for an order above the largest.
pub pm_allocate_pages-exhausted :
    (order : ℕ) (s : Store)
    → ((k : ℕ) → order ≤ k → k ≤ page_max_order → s.count k ≡ 0)
    → pm_allocate_pages order s ≡ ok null s
unfolding pm_allocate_pages
pm_allocate_pages-exhausted order s h = elim (dec_lt 10 order) [
  | yes gt ↦ ground arith
  | no le ↦
      let e = find_order-none (11 - order) order s.count (λ k lo hi. h k lo (omega arith)) in
      ground arith
]

order_of_zero : page_size_order 0 ≡ some 255
unfolding page_size_order order_loop
order_of_zero = refl

-- PM_Allocate refuses every request of at most half a page, whatever memory is free: the size in
-- pages is rounded down to 0, whose order is 255.
pub pm_allocate-small : (size : ℕ) (s : Store) → size ≤ 2048 → pm_allocate size s ≡ ok null s
unfolding pm_allocate pm_allocate_pages
pm_allocate-small zero s h = refl
pm_allocate-small (suc n) s h =
    let (k, e, lo, hi) = page_size_align-least (suc n) (omega arith) (omega arith) in
    let none_left : page_size_align (suc n) / 4096 ≡ 0 = omega arith in
    let fits : ltb page_max_size (suc n) ≡ false = ground arith in
    let some_size : (suc n == 0) ≡ false = ground arith in
    rw (fits, some_size, none_left, order_of_zero)

pow-pos : (a : ℕ) → 0 < 2 ^ a
pow-pos a = one-le-pow a 2 (omega arith)

pow-lt : (a b : ℕ) → 2 ^ a < 2 ^ b → a < b
pow-lt a b h = elim (dec_lt a b) [
  | yes lt ↦ lt
  | no ge ↦
      absurd (omega (arith, pow-le-pow_right {n = 2} (omega arith) {i = b} {j = a} (omega arith)))
]

-- A block of `2 ^ k` bytes, from one page to 4 MiB, has order `k - 12`.
block_order :
    (k : ℕ)
    → 11 < k
    → k < 23
    → (page_size_order (2 ^ k / 4096) ≡ some (k - 12)) × (2 ^ k ≡ 2 ^ (k - 12) * 4096)
block_order k lo hi =
    let split : 2 ^ k ≡ 2 ^ (k - 12) * 2 ^ 12 = pow-add (k - 12) 12 k (omega arith) in
    let pages : 2 ^ k / 4096 ≡ 2 ^ (k - 12) = omega arith in
    let most : 2 ^ (k - 12) ≤ 2 ^ 10 =
      pow-le-pow_right {n = 2} (omega arith) {i = k - 12} {j = 10} (omega arith) in
    let (r, found, lo', hi', le) = page_size_order-log2 (2 ^ (k - 12)) (pow-pos (k - 12)) most in
    let below : k - 12 < suc r = pow-lt (k - 12) (suc r) hi' in
    let above : r < suc (k - 12) =
      pow-lt r (suc (k - 12)) (omega (arith, pow-suc 2 (k - 12), pow-pos (k - 12))) in
    let same : r ≡ k - 12 = omega arith in (rw pages (found ∙ ap some same), split)

-- PM_Allocate of more than 2048 bytes and at most 4 MiB is PM_AllocatePages of an order whose
-- block holds the size and is less than twice as large.
pub pm_allocate-order :
    (size : ℕ) (s : Store)
    → 2048 < size
    → size ≤ page_max_size
    → (r : ℕ) × (pm_allocate size s ≡ pm_allocate_pages r s)
      × (r ≤ page_max_order)
      × (size ≤ 2 ^ r * 4096)
      × (2 ^ r * 4096 < 2 * size)
unfolding pm_allocate
pm_allocate-order size s lo hi =
    let (k, e, le, lt) = page_size_align-least size (omega arith) (omega arith) in
    let k_lo : 11 < k = pow-lt 11 k (omega arith) in
    let k_hi : k < 23 = pow-lt k 23 (omega arith) in
    let (found, split) = block_order k k_lo k_hi in
    let fits : ltb page_max_size size ≡ false = ground arith in
    let some_size : (size == 0) ≡ false = ground arith in
    (k - 12, rw (fits, some_size, e, found), omega arith, omega arith, omega arith)
