-- ===== src/Prelude/Bits.antt =====
-- Laws of `&`, `|` and `>>` at every width, as arithmetic on ℕ.
mod Step
pub use Step.{bit_and_step, bit_or_step}
use Prim.Native.Nat.{ℕ, zero, suc, ◌+◌, ◌-◌, ◌*◌, ◌/◌, ◌%◌, ◌^◌, ◌≤◌, ◌<◌, max, bit_and, bit_or}
use mathlib.Core.Path.{◌≡◌, refl, ap, sym, ◌∙◌}
use native.Mathlib.Omega.{arith}
use native.Mathlib.Nat.{pow-suc, one-le-pow, div-div-eq-div-mul, div-one, mul_comm, div-add-mod'}
use native.Mathlib.Decide.{dec_le}

-- `a >> k`
abbrev pub shr : ℕ → ℕ → ℕ
shr a k = a / 2 ^ k

-- Multiples of a power of two, one bit further.
scale : (q k : ℕ) → q * 2 ^ suc k ≡ 2 * (q * 2 ^ k)
scale q k = omega (arith, ap (λ (t : ℕ). q * t) (pow-suc 2 k))

pub shr-suc : (a k : ℕ) → shr a (suc k) ≡ shr (a / 2) k
shr-suc a k = rw pow-suc (rw (mul_comm (2 ^ k) 2) (sym (div-div-eq-div-mul a 2 (2 ^ k))))

bit_and-zero_below : (n a : ℕ) → a ≤ n → bit_and a 0 ≡ 0
bit_and-zero_below zero zero h = refl
bit_and-zero_below zero (suc a) h = elim h [ ]
bit_and-zero_below (suc n) a h =
    omega (arith, bit_and_step a 0, bit_and-zero_below n (a / 2) (omega arith))

pub bit_and-zero : (a : ℕ) → bit_and a 0 ≡ 0
bit_and-zero a = bit_and-zero_below a a (omega arith)

zero-bit_or_below : (n b : ℕ) → b ≤ n → bit_or 0 b ≡ b
zero-bit_or_below zero zero h = refl
zero-bit_or_below zero (suc b) h = elim h [ ]
zero-bit_or_below (suc n) b h =
    omega (arith, bit_or_step 0 b, zero-bit_or_below n (b / 2) (omega arith))

pub zero-bit_or : (b : ℕ) → bit_or 0 b ≡ b
zero-bit_or b = zero-bit_or_below b b (omega arith)

bit_or-zero_below : (n a : ℕ) → a ≤ n → bit_or a 0 ≡ a
bit_or-zero_below zero zero h = refl
bit_or-zero_below zero (suc a) h = elim h [ ]
bit_or-zero_below (suc n) a h =
    omega (arith, bit_or_step a 0, bit_or-zero_below n (a / 2) (omega arith))

pub bit_or-zero : (a : ℕ) → bit_or a 0 ≡ a
bit_or-zero a = bit_or-zero_below a a (omega arith)

-- The remainder by a power of two, one bit further.
mod-scale : (a k : ℕ) → a % 2 ^ suc k ≡ 2 * (a / 2 % 2 ^ k) + a % 2
mod-scale a k = omega (
  arith,
  div-add-mod' a (2 ^ suc k),
  div-add-mod' (a / 2) (2 ^ k),
  scale (a / 2 ^ suc k) k,
  ap (λ (t : ℕ). t * 2 ^ k) (shr-suc a k),
)

-- `a & (2 ^ k - 1)` is the remainder by `2 ^ k`.
pub bit_and-ones : (k a : ℕ) → bit_and a (2 ^ k - 1) ≡ a % 2 ^ k
bit_and-ones zero a = omega (arith, bit_and-zero a)
bit_and-ones (suc k) a = ground (
  arith,
  bit_and_step a (2 ^ suc k - 1),
  bit_and-ones k (a / 2),
  mod-scale a k,
  pow-suc 2 k,
  one-le-pow k 2,
)

-- `a & (b << k)` looks only at the bits of `a` from `k` on.
pub bit_and-shifted : (k a b : ℕ) → bit_and a (b * 2 ^ k) ≡ bit_and (shr a k) b * 2 ^ k
bit_and-shifted zero a b = ground arith
bit_and-shifted (suc k) a b = ground (
  arith,
  bit_and_step a (b * 2 ^ suc k),
  scale b k,
  bit_and-shifted k (a / 2) b,
  scale (bit_and (shr (a / 2) k) b) k,
  shr-suc a k,
)

-- `(q << k) | r` is a sum where `r` has `k` bits.
pub bit_or-shifted : (k q r : ℕ) → r < 2 ^ k → bit_or (q * 2 ^ k) r ≡ q * 2 ^ k + r
bit_or-shifted zero q r h = ground (arith, bit_or-zero q)
bit_or-shifted (suc k) q r h =
    ground
      (arith, bit_or_step (q * 2 ^ suc k) r, scale q k, pow-suc 2 k, bit_or-shifted k q (r / 2))

-- `a | (2 ^ k - 1)` sets the `k` low bits.
pub bit_or-ones :
    (k q r : ℕ) → r < 2 ^ k → bit_or (q * 2 ^ k + r) (2 ^ k - 1) ≡ q * 2 ^ k + (2 ^ k - 1)
bit_or-ones zero q r h = ground (arith, bit_or-zero q)
bit_or-ones (suc k) q r h = ground (
  arith,
  bit_or_step (q * 2 ^ suc k + r) (2 ^ suc k - 1),
  scale q k,
  pow-suc 2 k,
  one-le-pow k 2,
  bit_or-ones k q (r / 2),
)

pub bit_or-half : (a b : ℕ) → bit_or a b / 2 ≡ bit_or (a / 2) (b / 2)
bit_or-half a b = omega (arith, bit_or_step a b)

bit_or-low : (a b : ℕ) → bit_or a b % 2 ≡ max (a % 2) (b % 2)
bit_or-low a b = omega (arith, bit_or_step a b)

pub bit_or-shr : (k a b : ℕ) → shr (bit_or a b) k ≡ bit_or (shr a k) (shr b k)
bit_or-shr zero a b = simp div-one
bit_or-shr (suc k) a b = simp (shr-suc, bit_or-half, bit_or-shr k (a / 2) (b / 2))

bit_or_assoc_below : (n a b c : ℕ) → a + b + c ≤ n → bit_or (bit_or a b) c ≡ bit_or a (bit_or b c)
bit_or_assoc_below zero a b c h =
    let e : a ≡ 0 = omega arith in
    let f : b ≡ 0 = omega arith in let g : c ≡ 0 = omega arith in rw (e, f, g)
bit_or_assoc_below (suc n) a b c h = elim (dec_le (a + b + c) n) [
  | yes le ↦ bit_or_assoc_below n a b c le
  | no gt ↦ ground (
    arith,
    bit_or_step (bit_or a b) c,
    bit_or_step a (bit_or b c),
    bit_or-half a b,
    bit_or-half b c,
    bit_or-low a b,
    bit_or-low b c,
    bit_or_assoc_below n (a / 2) (b / 2) (c / 2),
  )
]

pub bit_or_assoc : (a b c : ℕ) → bit_or (bit_or a b) c ≡ bit_or a (bit_or b c)
bit_or_assoc a b c = bit_or_assoc_below (a + b + c) a b c (omega arith)

zero-bit_and_below : (n b : ℕ) → b ≤ n → bit_and 0 b ≡ 0
zero-bit_and_below zero zero h = bit_and-zero 0
zero-bit_and_below zero (suc b) h = elim h [ ]
zero-bit_and_below (suc n) b h =
    omega (arith, bit_and_step 0 b, zero-bit_and_below n (b / 2) (omega arith))

bit_and_comm_below : (n a b : ℕ) → a ≤ n → bit_and a b ≡ bit_and b a
bit_and_comm_below zero zero b h = zero-bit_and_below b b (omega arith) ∙ sym (bit_and-zero b)
bit_and_comm_below zero (suc a) b h = elim h [ ]
bit_and_comm_below (suc n) a b h =
    omega (
      arith,
      bit_and_step a b,
      bit_and_step b a,
      bit_and_comm_below n (a / 2) (b / 2) (omega arith),
    )

pub bit_and_comm : (a b : ℕ) → bit_and a b ≡ bit_and b a
bit_and_comm a b = bit_and_comm_below a a b (omega arith)

bit_or-bit_and_below : (n a b : ℕ) → b ≤ n → bit_and (bit_or a b) b ≡ b
bit_or-bit_and_below zero a zero h = bit_and-zero (bit_or a 0)
bit_or-bit_and_below zero a (suc b) h = elim h [ ]
bit_or-bit_and_below (suc n) a b h = omega (
  arith,
  bit_and_step (bit_or a b) b,
  bit_or_step a b,
  bit_or-bit_and_below n (a / 2) (b / 2) (omega arith),
  ap (λ (t : ℕ). bit_and t (b / 2)) (bit_or-half a b),
)

-- A bit that is set is read as set.
pub bit_or-bit_and : (a b : ℕ) → bit_and (bit_or a b) b ≡ b
bit_or-bit_and a b = bit_or-bit_and_below b a b (omega arith)

bit_and-grows_below : (n a b c : ℕ) → c ≤ n → bit_and a c ≤ bit_and (bit_or a b) c
bit_and-grows_below zero a b zero h = omega (arith, bit_and-zero a)
bit_and-grows_below zero a b (suc c) h = elim h [ ]
bit_and-grows_below (suc n) a b c h =
    let below : bit_and (a / 2) (c / 2) ≤ bit_and (bit_or (a / 2) (b / 2)) (c / 2) =
      bit_and-grows_below n (a / 2) (b / 2) (c / 2) (omega arith) in
    omega (
      arith,
      bit_and_step a c,
      bit_and_step (bit_or a b) c,
      bit_or_step a b,
      below,
      ap (λ (t : ℕ). bit_and t (c / 2)) (bit_or-half a b),
    )

-- Setting bits clears none.
pub bit_and-grows : (a b c : ℕ) → bit_and a c ≤ bit_and (bit_or a b) c
bit_and-grows a b c = bit_and-grows_below c a b c (omega arith)

bit_or_comm_below : (n a b : ℕ) → a ≤ n → b ≤ n → bit_or a b ≡ bit_or b a
bit_or_comm_below zero zero zero h k = refl
bit_or_comm_below zero zero (suc b) h k = elim k [ ]
bit_or_comm_below zero (suc a) b h k = elim h [ ]
bit_or_comm_below (suc n) a b h k = omega (
  arith,
  bit_or_step a b,
  bit_or_step b a,
  bit_or_comm_below n (a / 2) (b / 2) (omega arith) (omega arith),
)

pub bit_or_comm : (a b : ℕ) → bit_or a b ≡ bit_or b a
bit_or_comm a b = bit_or_comm_below (a + b) a b (omega arith) (omega arith)
