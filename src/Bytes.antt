-- ===== src/Bytes.antt =====
-- The memory as bytes, and the accesses of more than one byte (little-endian).
use cubik_os.Prelude.{
  ℕ, zero, suc, ◌+◌, ◌*◌, ◌/◌, ◌%◌, ◌^◌, ◌≤◌, ◌<◌, ◌≡◌, refl, ◌⊎◌, inl, inr, update, arith, ◌∙◌,
}

-- A byte for each address.
abbrev pub Bytes : Type 0
Bytes = ℕ → ℕ

unfoldable pub load : ℕ → ℕ → Bytes → ℕ
load zero a m = 0
load (suc k) a m = m a + 2 ^ 8 * load k (a + 1) m

unfoldable pub store : ℕ → ℕ → ℕ → Bytes → Bytes
store zero a v m = m
store (suc k) a v m = store k (a + 1) (v / 2 ^ 8) (update m a (v % 2 ^ 8))

abbrev pub load64 : ℕ → Bytes → ℕ
load64 a m = load 8 a m

abbrev pub store64 : ℕ → ℕ → Bytes → Bytes
store64 a v m = store 8 a v m

-- A byte outside the range that is written.
pub store-outside : (k a v : ℕ) (m : Bytes) (b : ℕ) → (b < a) ⊎ (a + k ≤ b) → store k a v m b ≡ m b
unfolding store
store-outside zero a v m b out = refl
store-outside (suc k) a v m b out =
    store-outside k (a + 1) (v / 2 ^ 8) (update m a (v % 2 ^ 8)) b (apart a b k out)
    ∙ ground (arith, out)
  where
    apart : (a b k : ℕ) → (b < a) ⊎ (a + suc k ≤ b) → (b < a + 1) ⊎ (a + 1 + k ≤ b)
    apart a b k (inl lt) = inl (omega arith)
    apart a b k (inr le) = inr (omega arith)

-- A load depends on the bytes that it reads.
pub load-ext :
    (k a : ℕ) (m m' : Bytes) → ((i : ℕ) → i < k → m' (a + i) ≡ m (a + i)) → load k a m' ≡ load k a m
unfolding load
load-ext zero a m m' same = refl
load-ext (suc k) a m m' same =
    let first : m' (a + 0) ≡ m (a + 0) = same 0 (omega arith) in
    let rest : load k (a + 1) m' ≡ load k (a + 1) m =
      load-ext k (a + 1) m m' (λ i lt. next i (same (suc i) (omega arith))) in
    let here : m' a ≡ m a = let e : a + 0 ≡ a = omega arith in rw (← e) first in rw (rest, here)
  where
    next : (i : ℕ) → m' (a + suc i) ≡ m (a + suc i) → m' (a + 1 + i) ≡ m (a + 1 + i)
    next i h = let e : a + 1 + i ≡ a + suc i = omega arith in rw e h

-- The bytes of `v` that `k` bytes hold.
abbrev low : ℕ → ℕ → ℕ
low zero v = 0
low (suc k) v = v % 2 ^ 8 + 2 ^ 8 * low k (v / 2 ^ 8)

load-store : (k a v : ℕ) (m : Bytes) → load k a (store k a v m) ≡ low k v
unfolding load store
load-store zero a v m = refl
load-store (suc k) a v m =
    let m' = update m a (v % 2 ^ 8) in
    let first : store k (a + 1) (v / 2 ^ 8) m' a ≡ v % 2 ^ 8 =
      store-outside k (a + 1) (v / 2 ^ 8) m' a (inl (omega arith)) ∙ ground arith in
    rw (first, load-store k (a + 1) (v / 2 ^ 8) m')

pub load64-store64 : (a v : ℕ) (m : Bytes) → load64 a (store64 a v m) ≡ v % 2 ^ 64
load64-store64 a v m = load-store 8 a v m ∙ (omega arith)

pub load-store_apart :
    (j k a b v : ℕ) (m : Bytes) → (a + k ≤ b) ⊎ (b + j ≤ a) → load j b (store k a v m) ≡ load j b m
load-store_apart j k a b v m (inl le) =
    load-ext j b m (store k a v m) (λ i lt. store-outside k a v m (b + i) (inr (omega arith)))
load-store_apart j k a b v m (inr le) =
    load-ext j b m (store k a v m) (λ i lt. store-outside k a v m (b + i) (inl (omega arith)))
