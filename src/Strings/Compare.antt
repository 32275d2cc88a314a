-- ===== src/Strings/Compare.antt =====
-- strcmp, strchr and strnchr on texts, and memset, memcpy and memcmp on ranges.
use cubik_os.Prelude.{
  ℕ, zero, suc, ◌+◌, ◌-◌, ◌^◌, ◌<◌, ◌≡◌, refl, ◌≢◌, ◌↔◌, inl, inr, true, false, ◌==◌, if◌then◌else◌,
  Option, none, some, List, [], ◌∷◌, length, arith, ◌∙◌, u8, u32, ap, ap₂, subst, ℕ_discrete,
  Bool-cases,
}
use cubik_os.Bytes.{Bytes}
use cubik_os.Strings.Defs.{strcmp, strchr, strnchr, int_of}
use cubik_os.Strings.Text.{IsText}

-- Each character of a list is a byte.
abbrev pub AreBytes : List ℕ → Type 0
AreBytes [] = Unit {0}
AreBytes (c ∷ s) = (c < 2 ^ 8) × AreBytes s

-- The difference of two bytes as characters is 0 for the same byte only.
difference : (a b : ℕ) → a < 2 ^ 8 → b < 2 ^ 8 → a ≢ b → u32 (int_of a + 2 ^ 32 - int_of b) ≢ 0
difference a b ha hb h = ground arith

head-≢ : {c d : ℕ} {s t : List ℕ} → c ≢ d → (c ∷ s) ≢ (d ∷ t)
head-≢ h e = h (ap first e)
  where
    first : List ℕ → ℕ
    first [] = 0
    first (c ∷ s) = c

length-≢ : {s t : List ℕ} → length s ≢ length t → s ≢ t
length-≢ h e = h (ap length e)

neither : {A B : Type 0} → ¬ A → ¬ B → A ↔ B
neither f g = ((λ a. absurd (f a)), λ b. absurd (g b))

-- strcmp of two texts of bytes, with fuel above the length of the first, ends, and its result
-- is 0 if and only if they are the same.
pub strcmp-text :
    (s t : List ℕ) (fuel a b : ℕ) (m : Bytes)
    → IsText s a m
    → IsText t b m
    → AreBytes s
    → AreBytes t
    → length s < fuel
    → (r : ℕ) × (strcmp fuel a b m ≡ some r) × ((r ≡ 0) ↔ (s ≡ t))
unfolding strcmp
strcmp-text s t zero a b m p q x y lt = absurd (omega arith)
strcmp-text [] [] (suc fuel) a b m p q x y lt = (0, rw (p, q), ground arith)
strcmp-text [] (d ∷ t) (suc fuel) a b m p (at, nonzero, q) x (small, y) lt =
    let ne : (0 == d) ≡ false = ground (arith, nonzero) in
    (
      u32 (0 + 2 ^ 32 - int_of d),
      rw (p, at, ne),
      neither (difference 0 d (omega arith) small (ground (arith, nonzero)))
          (length-≢ (omega arith)),
    )
strcmp-text (c ∷ s) [] (suc fuel) a b m (here, nonzero, p) q (small, x) y lt =
    let ne : (c == 0) ≡ false = ground (arith, nonzero) in
    (
      u32 (int_of c + 2 ^ 32 - 0),
      rw (here, q, ne),
      neither (difference c 0 small (omega arith) nonzero) (length-≢ (omega arith)),
    )
strcmp-text (c ∷ s) (d ∷ t) (suc fuel) a b m (here, nonzero, p) (at, other, q) (small, x) (low, y)
      lt =
    elim (ℕ_discrete c d) [
      | yes e ↦
          let (r, run, same) = strcmp-text s t fuel (a + 1) (b + 1) m p q x y (omega arith) in
          let eq : (c == d) ≡ true = ground arith in
          let ne : (c == 0) ≡ false = ground (arith, nonzero) in
          (
            r,
            rw (here, at, eq, ne) run,
            ((λ z. ap₂ (λ u v. u ∷ v) e (same.0 z)), λ z. same.1 (ap tail z)),
          )
      | no ne ↦
          let test : (c == d) ≡ false = ground (arith, ne) in
          (
            u32 (int_of c + 2 ^ 32 - int_of d),
            rw (here, at, test),
            neither (difference c d small low ne) (head-≢ ne),
          )
    ]
  where
    tail : List ℕ → List ℕ
    tail [] = []
    tail (c ∷ s) = s

-- The place of the first `c` in a list.
abbrev pub position : ℕ → List ℕ → Option ℕ
position c [] = none
position c (d ∷ s) =
    if d == c then some 0 else (elim (position c s) [ none ↦ none | some i ↦ some (suc i) ])

abbrev pub found_at : ℕ → Option ℕ → ℕ
found_at a none = 0
found_at a (some i) = a + i

found_at-suc :
    (a : ℕ) (o : Option ℕ)
    → found_at a (elim o [ none ↦ none | some i ↦ some (suc i) ]) ≡ found_at (a + 1) o
found_at-suc a none = refl
found_at-suc a (some i) = omega arith

-- strchr of a text for a character that is not null, with fuel above its length, ends at the
-- first place of the character, or with NULL where there is none.
pub strchr-text :
    (s : List ℕ) (fuel a c : ℕ) (m : Bytes)
    → IsText s a m
    → u8 c ≢ 0
    → length s < fuel
    → strchr fuel a c m ≡ some (found_at a (position (u8 c) s))
unfolding strchr
strchr-text s zero a c m t nonzero lt = absurd (omega arith)
strchr-text [] (suc fuel) a c m t nonzero lt =
    let ne : (0 == u8 c) ≡ false = ground (arith, nonzero) in rw (t, ne)
strchr-text (d ∷ s) (suc fuel) a c m (here, some_char, t) nonzero lt =
    let ne : (d == 0) ≡ false = ground (arith, some_char) in
    elim (Bool-cases (d == u8 c)) [
      | inl e ↦ let z : a + 0 ≡ a = omega arith in rw (here, e, z)
      | inr e ↦
          rw (here, e, ne, found_at-suc a (position (u8 c) s))
            (strchr-text s fuel (a + 1) c m t nonzero (omega arith))
    ]

-- strnchr, where the first `n` characters are neither null nor `c`: the result is the address
-- behind them.
pub strnchr-absent :
    (n a c : ℕ) (m : Bytes)
    → ((i : ℕ) → i < n → (m (a + i) ≢ 0) × (m (a + i) ≢ u8 c))
    → strnchr a c n m ≡ a + n
unfolding strnchr
strnchr-absent zero a c m h = omega arith
strnchr-absent (suc n) a c m h =
    let z : a + 0 ≡ a = omega arith in
    let first : (m a ≢ 0) × (m a ≢ u8 c) =
      subst (λ b. (m b ≢ 0) × (m b ≢ u8 c)) z (h 0 (omega arith)) in
    let e : (m a == u8 c) ≡ false = ground (arith, first) in
    let f : (m a == 0) ≡ false = ground (arith, first) in
    rw (e, f)
      (strnchr-absent n (a + 1) c m
          (λ i lt. subst (λ b. (m b ≢ 0) × (m b ≢ u8 c)) (omega arith) (h (suc i) (omega arith)))
        ∙ (omega arith))
