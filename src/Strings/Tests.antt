-- ===== src/Strings/Tests.antt =====
-- The functions of the memory and of texts run on small memories.
use cubik_os.Prelude.{
  ℕ, ◌≡◌, ◌+◌, ◌<◌, ◌==◌, ◌↔◌, ◌⊎◌, inr, if◌then◌else◌, some, List, [], ◌∷◌, ◌++◌, refl, arith,
}
use cubik_os.Bytes.{Bytes}
use cubik_os.Paging.Used.{IsBytes}
use cubik_os.Strings.Defs.{strcat, memcmp}
use cubik_os.Strings.Text.{IsText}
use cubik_os.Strings.Copy.{strcat-Written}
use cubik_os.Strings.Ranges.{memcmp-same}

abbrev ab : List ℕ
ab = 97 ∷ 98 ∷ []

-- "ab" at 10 and at 20, and nothing else.
abbrev sample : Bytes
sample a =
    if a == 10
    then 97
    else if a == 11
    then 98
    else if a == 20
    then 97
    else if a == 21
    then 98
    else 0

sample-IsBytes : IsBytes sample
sample-IsBytes a = ground arith

at_10 : IsText ab 10 sample
at_10 = (refl, omega arith, (refl, omega arith, refl))

at_20 : IsText ab 20 sample
at_20 = (refl, omega arith, (refl, omega arith, refl))

strcat-Written_example :
    (m' : Bytes) × (strcat 100 20 10 sample ≡ some m')
    × IsText (ab ++ ab) 20 m'
    × ((b : ℕ) → (b < 20 + 2) ⊎ (20 + 2 + 2 < b) → m' b ≡ sample b)
strcat-Written_example =
    strcat-Written ab ab 100 20 10 sample at_20 at_10 (inr (omega arith)) (omega arith)

memcmp-same_example :
    (memcmp 10 20 2 sample ≡ 0) ↔ ((j : ℕ) → j < 2 → sample (10 + j) ≡ sample (20 + j))
memcmp-same_example = memcmp-same 2 10 20 sample sample-IsBytes
