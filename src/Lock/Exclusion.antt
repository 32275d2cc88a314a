-- ===== src/Lock/Exclusion.antt =====
-- Mutual exclusion, and that a taken lock has a holder.
use cubik_os.Prelude.{
  ℕ, ◌≡◌, ◌≢◌, refl, sym, subst, ap, ◌∙◌, Bool, true, false, ◌==◌, if◌then◌else◌, update,
  ℕ_discrete, arith, if_true, if_false, fun_ext, Bool-cases, inl, inr,
}
use cubik_os.Lock.Defs.{
  Pc, outside, exchange, testing, waiting, holding, Move, call, xchg, jz, fall, jnz, jmp, release,
  System, Step, step, Reach, start, next, unused,
}

-- The processor has found the lock free and not yet released it.
abbrev pub inside : Pc → Bool
inside outside = false
inside (exchange lv) = false
inside (testing lv) = lv == 0
inside (waiting lv) = false
inside holding = true

-- What the register holds before an exchange is not 0.
abbrev pub IsArmed : Pc → Type 0
IsArmed outside = Unit
IsArmed (exchange lv) = lv ≢ 0
IsArmed (testing lv) = Unit
IsArmed (waiting lv) = lv ≢ 0
IsArmed holding = Unit

-- Of the processors that are inside, there is at most one, and there is one where the lock is taken.
pub record IsExclusive (word : ℕ) (ins : ℕ → Bool) : Type 0 where
  pub taken : (i : ℕ) → ins i ≡ true → word ≢ 0
  pub single : (i j : ℕ) → ins i ≡ true → ins j ≡ true → i ≡ j
  pub held : word ≢ 0 → (i : ℕ) × (ins i ≡ true)

-- What a move means for the processors as a whole: it stays where it is, as far as the lock goes,
-- or it finds the lock free, or it releases it.
pub data Kind (word : ℕ) (old : Pc) (word' : ℕ) (new : Pc) : Type 0 where
  same : word' ≡ word → inside new ≡ inside old → Kind word old word' new
  busy : word ≢ 0 → word' ≢ 0 → inside old ≡ false → inside new ≡ false → Kind word old word' new
  enter : word ≡ 0 → word' ≢ 0 → inside new ≡ true → Kind word old word' new
  leave : word' ≡ 0 → inside old ≡ true → inside new ≡ false → Kind word old word' new

Move-Kind :
    (word : ℕ) (old : Pc) (word' : ℕ) (new : Pc)
    → IsArmed old
    → Move word old word' new
    → Kind word old word' new
Move-Kind word old word' new armed call = same refl refl
Move-Kind word (exchange lv) word' new armed xchg = elim (ℕ_discrete word 0) [
  | yes free ↦ enter free armed (ground arith)
  | no other ↦ busy other armed refl (ground arith)
]
Move-Kind word (testing lv) word' new armed (jz e) = same refl (ground arith)
Move-Kind word (testing lv) word' new armed (fall ne) = same refl (ground arith)
Move-Kind word old word' new armed (jnz ne) = same refl refl
Move-Kind word old word' new armed (jmp e) = same refl refl
Move-Kind word old word' new armed release = leave refl refl refl

Move-IsArmed :
    (word : ℕ) (old : Pc) (word' : ℕ) (new : Pc)
    → IsArmed old
    → Move word old word' new
    → IsArmed new
Move-IsArmed word old word' new armed call = omega arith
Move-IsArmed word old word' new armed xchg = tt
Move-IsArmed word old word' new armed (jz e) = tt
Move-IsArmed word old word' new armed (fall ne) = ne
Move-IsArmed word old word' new armed (jnz ne) = armed
Move-IsArmed word old word' new armed (jmp e) = armed
Move-IsArmed word old word' new armed release = tt

-- The processor `i` goes to `b`, as far as being inside is concerned.
module _ (word : ℕ) (ins : ℕ → Bool) (i : ℕ) (inv : IsExclusive word ins) where
  abbrev After : ℕ → Bool → Type 0
  After word' b = IsExclusive word' (λ j. if i == j then b else ins j)

  IsExclusive-stay : (word' : ℕ) (b : Bool) → (word' ≡ word) → b ≡ ins i → After word' b
  IsExclusive-stay word' b same_word same_side =
      let as_before : (j : ℕ) → (if i == j then b else ins j) ≡ ins j = λ j. elim (ℕ_discrete i j) [
        | yes e ↦ if_true (i == j) _ _ (ground (arith, e)) ∙ same_side ∙ ap ins e
        | no ne ↦ if_false (i == j) _ _ (ground (arith, ne))
      ] in
      record {
        taken = λ j on e. inv.taken j (sym (as_before j) ∙ on) (sym same_word ∙ e);
        single =
            λ j k on_j on_k. inv.single j k (sym (as_before j) ∙ on_j) (sym (as_before k) ∙ on_k);
        held = λ ne. let (j, on) = inv.held (λ e. ne (same_word ∙ e)) in (j, as_before j ∙ on);
      }

  IsExclusive-busy : (word' : ℕ) → word ≢ 0 → word' ≢ 0 → ins i ≡ false → After word' false
  IsExclusive-busy word' was is out =
      let moved = IsExclusive-stay word false refl (sym out) in
      record { taken = λ j on. is; single = moved.single; held = λ ne. moved.held was }

  IsExclusive-enter : (word' : ℕ) → word ≡ 0 → word' ≢ 0 → After word' true
  IsExclusive-enter word' free is =
      let only : (j : ℕ) → (if i == j then true else ins j) ≡ true → i ≡ j = λ j on.
        elim (ℕ_discrete i j) [
          | yes e ↦ e
          | no ne ↦
              absurd (inv.taken j (sym (if_false (i == j) _ _ (ground (arith, ne))) ∙ on) free)
        ] in
      record {
        taken = λ j on. is;
        single = λ j k on_j on_k. sym (only j on_j) ∙ only k on_k;
        held = λ ne. (i, if_true (i == i) _ _ (ground arith));
      }

  IsExclusive-leave : (word' : ℕ) → word' ≡ 0 → ins i ≡ true → After word' false
  IsExclusive-leave word' free on_i =
      let none_left : (j : ℕ) → (if i == j then false else ins j) ≢ true = λ j on.
        elim (ℕ_discrete i j) [
          | yes e ↦ absurd (ground (arith, on, e))
          | no ne ↦
              absurd
                (ne (inv.single i j on_i (sym (if_false (i == j) _ _ (ground (arith, ne))) ∙ on)))
        ] in
      record {
        taken = λ j on. absurd (none_left j on);
        single = λ j k on_j on_k. absurd (none_left j on_j);
        held = λ ne. absurd (ne free);
      }

-- What holds of every system that is reached.
pub record IsSound (s : System) : Type 0 where
  pub armed : (i : ℕ) → IsArmed (s.pcs i)
  pub exclusive : IsExclusive s.word (λ i. inside (s.pcs i))

inside-update :
    (pcs : ℕ → Pc) (i : ℕ) (pc : Pc)
    → ◌≡◌ {A = ℕ → Bool}
        (λ j. if i == j then inside pc else inside (pcs j))
        (λ j. inside (update pcs i pc j))
inside-update pcs i pc =
    fun_ext (λ j. elim (Bool-cases (i == j)) [ inl here ↦ rw here refl | inr away ↦ rw away refl ])

IsArmed-update :
    (pcs : ℕ → Pc) (i : ℕ) (pc : Pc)
    → ((j : ℕ) → IsArmed (pcs j))
    → IsArmed pc
    → (j : ℕ) → IsArmed (update pcs i pc j)
IsArmed-update pcs i pc armed new j = elim (Bool-cases (i == j)) [
  | inl here ↦ subst IsArmed (sym (if_true (i == j) pc (pcs j) here)) new
  | inr away ↦ subst IsArmed (sym (if_false (i == j) pc (pcs j) away)) (armed j)
]

Step-IsExclusive :
    (s : System) (i word' : ℕ) (new : Pc)
    → IsExclusive s.word (λ j. inside (s.pcs j))
    → Kind s.word (s.pcs i) word' new
    → IsExclusive word' (λ j. if i == j then inside new else inside (s.pcs j))
Step-IsExclusive s i word' new inv (same same_word same_side) =
    IsExclusive-stay s.word (λ j. inside (s.pcs j)) i inv word' (inside new) same_word same_side
Step-IsExclusive s i word' new inv (busy was is out out') =
    subst (λ b. IsExclusive word' (λ j. if i == j then b else inside (s.pcs j))) (sym out')
      (IsExclusive-busy s.word (λ j. inside (s.pcs j)) i inv word' was is out)
Step-IsExclusive s i word' new inv (enter free is on) =
    subst (λ b. IsExclusive word' (λ j. if i == j then b else inside (s.pcs j))) (sym on)
      (IsExclusive-enter s.word (λ j. inside (s.pcs j)) i inv word' free is)
Step-IsExclusive s i word' new inv (leave free on out) =
    subst (λ b. IsExclusive word' (λ j. if i == j then b else inside (s.pcs j))) (sym out)
      (IsExclusive-leave s.word (λ j. inside (s.pcs j)) i inv word' free on)

Step-IsSound : (s t : System) → IsSound s → Step s t → IsSound t
Step-IsSound s t inv (step i {word = word'} {pc = new} move) = record {
  armed =
      IsArmed-update s.pcs i new inv.armed
        (Move-IsArmed s.word (s.pcs i) word' new (inv.armed i) move);
  exclusive = subst (IsExclusive word') (inside-update s.pcs i new) (
      Step-IsExclusive s i word' new inv.exclusive
        (Move-Kind s.word (s.pcs i) word' new (inv.armed i) move));
}

-- Reached from the unused lock by any interleaving of any number of processors' steps, the lock is
-- sound: at most one processor is between AcquireLock's finding the lock free and ReleaseLock, the
-- word of the lock is then not 0, and where the word is not 0 there is such a processor.
pub Reach-IsSound : (s : System) → Reach unused s → IsSound s
Reach-IsSound s start = record {
  armed = λ i. tt;
  exclusive = record {
    taken = λ i on. absurd (ground (arith, on));
    single = λ i j on_i on_j. absurd (ground (arith, on_i));
    held = λ ne. absurd (ne refl);
  };
}
Reach-IsSound s (next {t} reached taken) = Step-IsSound t s (Reach-IsSound t reached) taken
