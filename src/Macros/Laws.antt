-- ===== src/Macros/Laws.antt =====
-- The two macros and what they compute at a power of two.
use mathlib.Core.Path.{◌≡⟨◌⟩◌, ◌∎}
use native.Mathlib.Nat.{
  pow-suc, one-le-pow, div-add-mod', mod-lt, mod-eq_of_lt, div-lt_iff_lt-mul, mul-mod_left,
}
use cubik_os.Prelude.{
  ℕ, zero, suc, ◌+◌, ◌-◌, ◌*◌, ◌/◌, ◌%◌, ◌^◌, ◌≤◌, ◌<◌, ◌≡◌, ap, ◌∙◌, bit_and, arith, u64,
}
use cubik_os.Prelude.Bits.{shr, bit_and-ones, bit_and-shifted}

-- `~x` on 64 bits
abbrev not64 : ℕ → ℕ
not64 x = 2 ^ 64 - 1 - x

unfoldable pub align_down : ℕ → ℕ → ℕ
align_down addr align = bit_and addr (not64 (align - 1))

unfoldable pub align_up : ℕ → ℕ → ℕ
align_up addr align = bit_and (u64 (addr + align - 1)) (not64 (align - 1))

pub pow-add : (j k n : ℕ) → j + k ≡ n → 2 ^ n ≡ 2 ^ j * 2 ^ k
pow-add j zero n e = let f : n ≡ j = omega arith in rw f (omega arith)
pow-add j (suc k) zero e = absurd (omega arith)
pow-add j (suc k) (suc n) e = omega (
  arith,
  pow-suc 2 n,
  pow-suc 2 k,
  pow-add j k n (omega arith),
  ap (λ (t : ℕ). 2 ^ j * t) (pow-suc 2 k),
)

not64-mask : (j k : ℕ) → j + k ≡ 64 → not64 (2 ^ k - 1) ≡ (2 ^ j - 1) * 2 ^ k
not64-mask j k e = omega (
  arith,
  pow-add j k 64 e,
  one-le-pow k 2,
  ap (λ (t : ℕ). t * 2 ^ k) (one-less (2 ^ j) (one-le-pow j 2 (omega arith))),
)
  where
    one-less : (n : ℕ) → 1 ≤ n → n ≡ n - 1 + 1
    one-less n h = omega arith

shr-lt : (j k a : ℕ) → j + k ≡ 64 → a < 2 ^ 64 → shr a k < 2 ^ j
shr-lt j k a e h =
    (div-lt_iff_lt-mul (one-le-pow k 2 (omega arith))).1 (ground (arith, pow-add j k 64 e))

-- For an alignment `2 ^ k`, ALIGN_DOWN clears the `k` low bits of a 64-bit address.
pub align_down-eq : (j k a : ℕ) → j + k ≡ 64 → a < 2 ^ 64 → align_down a (2 ^ k) ≡ a / 2 ^ k * 2 ^ k
unfolding align_down
align_down-eq j k a e h =
    bit_and a (not64 (2 ^ k - 1))
    ≡⟨ ap (bit_and a) (not64-mask j k e) ⟩ bit_and a ((2 ^ j - 1) * 2 ^ k)
    ≡⟨ bit_and-shifted k a (2 ^ j - 1) ⟩ bit_and (shr a k) (2 ^ j - 1) * 2 ^ k
    ≡⟨ ap (λ (t : ℕ). t * 2 ^ k) (bit_and-ones j (shr a k) ∙ mod-eq_of_lt (shr-lt j k a e h)) ⟩
      a / 2 ^ k * 2 ^ k ∎

rounded-up :
    (p a : ℕ)
    → 1 ≤ p
    → ((a + p - 1) / p * p % p ≡ 0) × (a ≤ (a + p - 1) / p * p) × ((a + p - 1) / p * p < a + p)
rounded-up p a pos = (
  mul-mod_left ((a + p - 1) / p) p,
  omega (arith, div-add-mod' (a + p - 1) p, mod-lt (a + p - 1) pos),
  omega (arith, div-add-mod' (a + p - 1) p),
)

-- ALIGN_UP of a 64-bit address to `2 ^ k`, where the sum does not wrap, is a multiple of `2 ^
-- k` that is not below the address and less than `2 ^ k` above it.
pub align_up_lem :
    (j k a : ℕ)
    → j + k ≡ 64
    → a + 2 ^ k ≤ 2 ^ 64
    → (align_up a (2 ^ k) % 2 ^ k ≡ 0) × (a ≤ align_up a (2 ^ k)) × (align_up a (2 ^ k) < a + 2 ^ k)
unfolding align_up align_down
align_up_lem j k a e h =
    let pos : 1 ≤ 2 ^ k = one-le-pow k 2 (omega arith) in
    let sum : u64 (a + 2 ^ k - 1) ≡ a + 2 ^ k - 1 = omega arith in
    rw (sum, aligned) (rounded-up (2 ^ k) a pos)
  where
    aligned : bit_and (a + 2 ^ k - 1) (not64 (2 ^ k - 1)) ≡ (a + 2 ^ k - 1) / 2 ^ k * 2 ^ k
    aligned = align_down-eq j k (a + 2 ^ k - 1) e (omega (arith, one-le-pow k 2))
