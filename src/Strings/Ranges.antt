-- ===== src/Strings/Ranges.antt =====
-- memset, memcpy and memcmp on ranges of bytes.
use cubik_os.Prelude.{
  ℕ, zero, suc, ◌+◌, ◌-◌, ◌*◌, ◌/◌, ◌%◌, ◌^◌, ◌≤◌, ◌<◌, ◌≡◌, refl, ◌≢◌, ◌↔◌, inl, inr, false, ◌==◌,
  ltb, leb, ◌&&◌, if◌then◌else◌, update, arith, ◌∙◌, u8, u32, fun_ext, sym, Bool-cases, ℕ_discrete,
  if_true, if_false,
}
use cubik_os.Bytes.{Bytes, load, store}
use cubik_os.Strings.Defs.{memset, memcpy, copy_words, memcmp, memcmp_loop}
use cubik_os.Paging.Used.{IsBytes}

-- memset sets each byte of the range to the low byte of `val`, and no other byte.
pub memset-range :
    (n a val : ℕ) (m : Bytes) (b : ℕ)
    → memset a val n m b ≡ (if leb a b && ltb b (a + n) then u8 val else m b)
unfolding memset
memset-range zero a val m b = ground arith
memset-range (suc n) a val m b = memset-range n (a + 1) val (update m a (u8 val)) b ∙ ground arith

update-same : (m : Bytes) (a : ℕ) → update m a (m a) ≡ m
update-same m a = fun_ext (λ b. ground arith)

store-load : (k a : ℕ) (m : Bytes) → IsBytes m → store k a (load k a m) m ≡ m
unfolding store load
store-load zero a m h = refl
store-load (suc k) a m h =
    let low : (m a + 2 ^ 8 * load k (a + 1) m) % 2 ^ 8 ≡ m a = omega (arith, h a) in
    let high : (m a + 2 ^ 8 * load k (a + 1) m) / 2 ^ 8 ≡ load k (a + 1) m = omega (arith, h a) in
    rw (low, high, update-same m a) (store-load k (a + 1) m h)

copy_words-same : (size n a : ℕ) (m : Bytes) → IsBytes m → copy_words size n a a m ≡ m
unfolding copy_words
copy_words-same size zero a m h = refl
copy_words-same size (suc n) a m h =
    rw (store-load size a m h) (copy_words-same size n (a + size) m h)

-- On a memory of bytes memcpy copies the source onto itself: it returns the destination and
-- changes no byte.
pub memcpy-nothing :
    (dest addr count : ℕ) (m : Bytes) → IsBytes m → memcpy dest addr count m ≡ (dest, m)
unfolding memcpy
memcpy-nothing dest addr count m h = rw (
  copy_words-same 8 (count / 8) addr m h,
  copy_words-same 4 (count % 8 / 4) (addr + count / 8 * 8) m h,
  copy_words-same 1 (count % 4) (addr + (count / 8 * 8 + count % 8 / 4 * 4)) m h,
)

memcmp_loop-same :
    (n a b i : ℕ) (m : Bytes)
    → IsBytes m
    → (memcmp_loop a b n i m ≡ 0) ↔ ((j : ℕ) → i ≤ j → j < i + n → m (a + j) ≡ m (b + j))
unfolding memcmp_loop
memcmp_loop-same zero a b i m h = ((λ z j lo hi. absurd (omega arith)), λ f. refl)
memcmp_loop-same (suc n) a b i m h = elim (Bool-cases (m (a + i) == m (b + i))) [
  | inl e ↦
      let (to, from) = memcmp_loop-same n a b (i + 1) m h in
      (
        λ z j lo hi. elim (ℕ_discrete i j) [
          | yes same ↦ ground arith
          | no other ↦
              to
                (sym (
                    if_true (m (a + i) == m (b + i)) (memcmp_loop a b n (i + 1) m)
                      (u32 (m (a + i) + 2 ^ 32 - m (b + i))) e)
                  ∙ z)
                j (omega arith) (omega arith)
        ],
        λ f. rw e (from (λ j lo hi. f j (omega arith) (omega arith))),
      )
  | inr ne ↦ (
    λ z j lo hi. absurd (
        differ (m (a + i)) (m (b + i)) (h (a + i)) (h (b + i)) ne (
          sym (
            if_false (m (a + i) == m (b + i)) (memcmp_loop a b n (i + 1) m)
              (u32 (m (a + i) + 2 ^ 32 - m (b + i))) ne)
          ∙ z)),
    λ f. absurd (ground (arith, f i (omega arith) (omega arith))),
  )
]
  where
    differ : (x y : ℕ) → x < 2 ^ 8 → y < 2 ^ 8 → (x == y) ≡ false → u32 (x + 2 ^ 32 - y) ≢ 0
    differ x y hx hy ne = ground arith

-- On a memory of bytes memcmp is 0 if and only if the two ranges have the same bytes.
pub memcmp-same :
    (n a b : ℕ) (m : Bytes)
    → IsBytes m
    → (memcmp a b n m ≡ 0) ↔ ((j : ℕ) → j < n → m (a + j) ≡ m (b + j))
unfolding memcmp
memcmp-same n a b m h =
    let (to, from) = memcmp_loop-same n a b 0 m h in
    (λ z j lt. to z j (omega arith) (omega arith), λ f. from (λ j lo hi. f j (omega arith)))
