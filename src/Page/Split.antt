-- ===== src/Page/Split.antt =====
-- The loop of PM_AllocatePages that splits a block down to the requested order.
use native.Mathlib.Bridge.{le_prop}
use native.Mathlib.Nat.{pow-suc, pow-le-pow_right, one-le-pow}
use cubik_os.Prelude.{
  ℕ, zero, suc, ◌+◌, ◌*◌, ◌^◌, ◌≤◌, ◌<◌, ◌≡◌, refl, ◌≢◌, arith, ◌&&◌, leb, ltb, if◌then◌else◌, some,
  List, ◌∷◌, length, ap, ◌∙◌, sym, subst, ℕ_discrete, ◌⊎◌, update, u32,
}
use cubik_os.Memory.{Frame, Store, ok}
use cubik_os.Page.Buddy.{frame_size, expand_loop}
use cubik_os.Page.Pool.{Pool, IsTaken, pushed}
use cubik_os.Page.Expand.{
  buddy, half, IsUnused, Leads, Expanded, IsTaken-Leads, pm_expand_page-Expanded, Expanded-IsTaken,
}

-- The descriptors of the largest block at `p` do not reach past the address space.
abbrev pub Fits : ℕ → Type 0
Fits p = p + 2 ^ 10 * frame_size ≤ 2 ^ 64

pub two-pow-lt : (i j : ℕ) → i < j → 2 ^ i < 2 ^ j
two-pow-lt i j h = omega (
  arith,
  pow-suc 2 i,
  one-le-pow i 2,
  pow-le-pow_right {n = 2} (omega arith) {i = suc i} {j = j} h,
)

pub buddy-exact : (p k : ℕ) → Fits p → k < 10 → buddy p k ≡ p + 2 ^ k * frame_size
buddy-exact p k fits h = omega (arith, two-pow-lt k 10 h)

pub buddy-ne : (p k : ℕ) → Fits p → k < 10 → buddy p k ≢ p
buddy-ne p k fits h e = omega (arith, buddy-exact p k fits h, one-le-pow k 2)

pub buddy-lt : (p i k : ℕ) → Fits p → i < k → k < 10 → buddy p i < buddy p k
buddy-lt p i k fits h k_lt =
    omega (arith, buddy-exact p i fits (omega arith), buddy-exact p k fits k_lt, two-pow-lt i k h)

-- Every descriptor that the splits from order `o + n` down to `o` will fill is unused.
abbrev pub Unused : Store → (ℕ → List ℕ) → ℕ → ℕ → ℕ → Type 0
Unused s lists p o n = (k : ℕ) → o ≤ k → k < o + n → IsUnused s lists (buddy p k)

-- After `n` splits of the block at `p` down to order `o`: one new block in each list from `o` on.
pub record Split (s : Store) (lists : ℕ → List ℕ) (p o n : ℕ) (f : Frame)
    (unused : Unused s lists p o n) : Type 0 where
  pub after : Store
  pub after_lists : ℕ → List ℕ
  pub run : expand_loop n p s ≡ ok p after
  pub recounted :
      (c : ℕ → ℕ)
      → (c' : ℕ → ℕ) × (expand_loop n p (record s { count = c })
          ≡ ok p (record after { count = c' }))
        × ((j : ℕ) → (j < o) ⊎ (o + n ≤ j) → c' j ≡ c j)
  pub base : after.pf_freelist ≡ s.pf_freelist
  pub pool : Pool after after_lists
  pub shape :
      (j : ℕ) → after_lists j ≡ (if leb o j && ltb j (o + n) then buddy p j ∷ lists j else lists j)
  pub first_half : after.frames p ≡ some (record f { order = o; lock = 0 })
  pub halves :
      (j : ℕ) (lo : o ≤ j) (hi : j < o + n)
      → after.frames (buddy p j) ≡ some (half f (unused j lo hi).frame j)
  pub others :
      (a : ℕ) → a ≢ p → ((j : ℕ) → o ≤ j → j < o + n → a ≢ buddy p j) → after.frames a ≡ s.frames a

module _ {s : Store} {lists : ℕ → List ℕ} {p k : ℕ} {f : Frame} (o n : ℕ)
    (unused : Unused s lists p o (suc n)) (e : k ≡ o + n) (fits : Fits p) (k_lt : k < 10)
    (k_lo : o ≤ k) (k_hi : k < o + suc n) (step : Expanded s lists p k f (unused k k_lo k_hi).frame)
    (leads : (c : ℕ → ℕ) → Leads s p s.nodes c) where
  apart : (j : ℕ) → j < k → buddy p j ≢ buddy p k
  apart j h same = omega (arith, buddy-lt p j k fits h k_lt)

  -- What is unused for the later splits is untouched by the first.
  later : Unused step.after (pushed lists k (buddy p k)) p o n
  later j lo hi =
      let old = unused j lo (omega arith) in
      record {
        frame = old.frame;
        holds =
            step.others (buddy p j) (buddy-ne p j fits (omega arith)) (apart j (omega arith))
            ∙ old.holds;
        links = old.links;
        linked =
            step.nodes (buddy p j) (ground (arith, old.out k (omega arith), apart j (omega arith)))
            ∙ old.linked;
        fresh = old.fresh;
        not_null = old.not_null;
        out = λ i le.
            ground (arith, step.base, old.out i le, old.out k (omega arith), apart j (omega arith));
      }

  module _
      (rest : Split step.after
        (pushed lists k (buddy p k))
        p
        o
        n
        (record f { order = k; lock = 0 })
        later) where
    half_of_first : rest.after.frames (buddy p k) ≡ some (half f (unused k k_lo k_hi).frame k)
    half_of_first =
        rest.others (buddy p k) (buddy-ne p k fits k_lt)
          (λ j lo hi same. apart j (omega arith) (sym same))
        ∙ step.second_half

    HalfAt : ℕ → Type 0
    HalfAt i =
        (lo : o ≤ i) (hi : i < o + suc n)
        → rest.after.frames (buddy p i) ≡ some (half f (unused i lo hi).frame i)

    HalfAt-first : HalfAt k
    unfolding HalfAt
    HalfAt-first lo hi =
        half_of_first
        ∙ ap (λ h. some (half f (unused k h k_hi).frame k)) (le_prop k_lo lo)
        ∙ ap (λ h. some (half f (unused k lo h).frame k)) (le_prop k_hi hi)

    halves_of_all :
        (j : ℕ) (lo : o ≤ j) (hi : j < o + suc n)
        → rest.after.frames (buddy p j) ≡ some (half f (unused j lo hi).frame j)
    unfolding later HalfAt
    halves_of_all j lo hi = elim (ℕ_discrete k j) [
      | yes same ↦ subst HalfAt same HalfAt-first lo hi
      | no ne ↦
          rest.halves j lo (omega arith)
          ∙ ap (λ h. some (half f (unused j lo h).frame j)) (le_prop _ _)
    ]

  Split-step :
      Split step.after (pushed lists k (buddy p k)) p o n (record f { order = k; lock = 0 }) later
      → Split s lists p o (suc n) f unused
  unfolding later expand_loop
  Split-step rest = record {
    after = rest.after;
    after_lists = rest.after_lists;
    run = rw step.run rest.run;
    recounted = λ c.
        let c1 : ℕ → ℕ = update c k (u32 (c k + 1)) in
        let (c', run, same) = rest.recounted c1 in
        (
          c',
          rw (step.shadow s.nodes c (leads c)) run,
          λ j far. same j (ground (arith, far)) ∙ ground (arith, far),
        );
    base = rest.base ∙ step.base;
    pool = rest.pool;
    shape = λ j. ground (arith, rest.shape j);
    first_half = rest.first_half;
    halves = halves_of_all rest;
    others = λ a ne far.
        rest.others a ne (λ j lo hi. far j lo (omega arith))
        ∙ step.others a ne (far k (omega arith) (omega arith));
  }

-- PM_AllocatePages splits a block of order `o + n` in `n` rounds down to order `o`.
pub expand_loop-Split :
    (n o m p : ℕ) (s : Store) (lists : ℕ → List ℕ) (f : Frame)
    → Pool s lists
    → IsTaken s lists m p
    → o + n ≤ m
    → m ≤ 10
    → Fits p
    → ((k : ℕ) → o ≤ k → k < o + n → suc (length (lists k)) < 2 ^ 32)
    → s.frames p ≡ some f
    → f.order ≡ o + n
    → f.lock ≡ 0
    → (unused : Unused s lists p o n) → Split s lists p o n f unused
unfolding expand_loop
expand_loop-Split zero o m p s lists f pool taken om m_le fits room here order unlocked unused =
    record {
      after = s;
      after_lists = lists;
      run = refl;
      recounted = λ c. (c, refl, λ j far. refl);
      base = refl;
      pool = pool;
      shape = λ j. ground arith;
      first_half = ground arith;
      halves = λ j lo hi. absurd (omega arith);
      others = λ a ne far. refl;
    }
expand_loop-Split (suc n) o m p s lists f pool taken om m_le fits room here order unlocked unused =
    Split-step o n unused refl fits (omega arith) (omega arith) (omega arith) step leads (
      expand_loop-Split n o m p step.after (pushed lists (o + n) (buddy p (o + n)))
        (record f { order = o + n; lock = 0 }) step.pool
        (Expanded-IsTaken m step taken (omega arith)) (omega arith) m_le fits
        (λ k lo hi. ground (arith, room k lo)) step.first_half refl refl
        (later o n unused refl fits (omega arith) (omega arith) (omega arith) step leads))
  where
    step : Expanded s lists p (o + n) f (unused (o + n) (omega arith) (omega arith)).frame
    step =
        pm_expand_page-Expanded s lists m p (o + n) f pool taken
          (unused (o + n) (omega arith) (omega arith)) m_le (omega arith) here (omega arith)
          unlocked (buddy-ne p (o + n) fits (omega arith))
          (room (o + n) (omega arith) (omega arith))

    leads : (c : ℕ → ℕ) → Leads s p s.nodes c
    leads = IsTaken-Leads m pool taken m_le
