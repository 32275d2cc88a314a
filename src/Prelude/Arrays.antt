-- ===== src/Prelude/Arrays.antt =====
-- C arrays as functions of the index, and the loop that goes through an index range.
use Prim.Native.Nat.{ℕ, zero, suc, ◌+◌}
use mathlib.Core.Path.{◌≡◌, subst}
use native.Mathlib.Omega.{arith}
use cubik_os.Prelude.Tests.{◌==◌, if◌then◌else◌}

-- `f[i] = v`
abbrev pub update {ℓ} : {A : Type ℓ} → (ℕ → A) → ℕ → A → ℕ → A
update f i v j = if i == j then v else f j

-- The indices from `first` on, `rounds` of them, each handed to `step` with what is there so far.
unfoldable pub sweep {ℓ} : {A : Type ℓ} → (A → ℕ → A) → ℕ → ℕ → A → A
sweep step first zero a = a
sweep step first (suc rounds) a = sweep step (suc first) rounds (step a first)

-- What each step takes from one index to the next holds behind the last.
pub sweep_lem {ℓ κ} :
    {A : Type ℓ} (step : A → ℕ → A) (Holds : A → ℕ → Type κ)
    → ((a : A) (k : ℕ) → Holds a k → Holds (step a k) (suc k))
    → (rounds first : ℕ) (a : A) → Holds a first
    → Holds (sweep step first rounds a) (first + rounds)
unfolding sweep
sweep_lem step Holds next zero first a h =
    let same : first ≡ first + zero = omega arith in subst (Holds a) same h
sweep_lem step Holds next (suc rounds) first a h =
    let same : suc first + rounds ≡ first + suc rounds = omega arith in
    subst (Holds (sweep step (suc first) rounds (step a first))) same
      (sweep_lem step Holds next rounds (suc first) (step a first) (next a first h))
