-- ===== src/Strings/Text.antt =====
-- The text at an address: characters that are not null, and the null behind them.
use cubik_os.Prelude.{
  ℕ, zero, suc, ◌+◌, ◌≤◌, ◌<◌, ◌≡◌, ◌≢◌, ◌⊎◌, List, [], ◌∷◌, ◌++◌, length, arith, ◌∙◌,
}
use cubik_os.Bytes.{Bytes}

abbrev pub IsText : List ℕ → ℕ → Bytes → Type 0
IsText [] a m = m a ≡ 0
IsText (c ∷ s) a m = (m a ≡ c) × (c ≢ 0) × IsText s (a + 1) m

abbrev pub take : ℕ → List ℕ → List ℕ
take zero s = []
take (suc n) [] = []
take (suc n) (c ∷ s) = c ∷ take n s

-- The bytes of a text are all that it depends on.
pub IsText-same :
    (s : List ℕ) (a : ℕ) (m m' : Bytes)
    → ((b : ℕ) → a ≤ b → b ≤ a + length s → m' b ≡ m b)
    → IsText s a m
    → IsText s a m'
IsText-same [] a m m' same t = same a (omega arith) (omega arith) ∙ t
IsText-same (c ∷ s) a m m' same (here, some, rest) = (
  same a (omega arith) (omega arith) ∙ here,
  some,
  IsText-same s (a + 1) m m' (λ b lo hi. same b (omega arith) (omega arith)) rest,
)

-- The text `s` stands at `dest`, and no other byte has changed.
pub record Written (s : List ℕ) (dest : ℕ) (m m' : Bytes) : Type 0 where
  pub text : IsText s dest m'
  pub outside : (b : ℕ) → (b < dest) ⊎ (dest + length s < b) → m' b ≡ m b

-- The text `s` behind the characters of `t`.
pub IsText-append :
    (t s : List ℕ) (a : ℕ) (m m' : Bytes)
    → IsText t a m
    → ((b : ℕ) → a ≤ b → b < a + length t → m' b ≡ m b)
    → IsText s (a + length t) m'
    → IsText (t ++ s) a m'
IsText-append [] s a m m' old same new = let e : a + 0 ≡ a = omega arith in rw (← e) new
IsText-append (c ∷ t) s a m m' (here, some, rest) same new =
    let e : a + suc (length t) ≡ a + 1 + length t = omega arith in
    (
      same a (omega arith) (omega arith) ∙ here,
      some,
      IsText-append t s (a + 1) m m' rest (λ b lo hi. same b (omega arith) (omega arith))
          (rw (← e) new),
    )
