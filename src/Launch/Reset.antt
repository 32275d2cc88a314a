-- ===== src/Launch/Reset.antt =====
-- When MakeTripleFault asks for the reset.
use cubik_os.Prelude.{
  ℕ, zero, suc, ◌+◌, ◌%◌, ◌≤◌, ◌<◌, ◌≡◌, refl, ◌≢◌, ◌==◌, true, false, none, some, [], ◌∷◌, arith,
  ◌∙◌, ap,
}
use cubik_os.Launch.Defs.{write, halt, wait_status, make_triple_fault}

wait_status-done :
    (fuel : ℕ) (status : ℕ → ℕ) (n d : ℕ)
    → d < fuel
    → status (n + d) % 2 ≡ 0
    → ((i : ℕ) → n ≤ i → i < n + d → status i % 2 ≢ 0)
    → wait_status fuel status n ≡ some (n + d)
unfolding wait_status
wait_status-done zero status n d lt here before = absurd (omega arith)
wait_status-done (suc fuel) status n zero lt here before =
    let at : n + 0 ≡ n = omega arith in
    let ready : (status n % 2 == 0) ≡ true = ground (arith, ap (λ k. status k % 2) at, here) in
    rw (ready, at) refl
wait_status-done (suc fuel) status n (suc d) lt here before =
    let at : n + suc d ≡ n + 1 + d = omega arith in
    let busy : (status n % 2 == 0) ≡ false = ground (arith, before n (omega arith) (omega arith)) in
    rw (busy, at)
      (wait_status-done fuel status (n + 1) d (omega arith)
        (ap (λ k. status k % 2) {x = n + 1 + d} {y = n + suc d} (omega arith) ∙ here)
        (λ i lo hi. before i (omega arith) (omega arith)))

wait_status-busy :
    (fuel : ℕ) (status : ℕ → ℕ) (n : ℕ)
    → ((i : ℕ) → n ≤ i → status i % 2 ≢ 0)
    → wait_status fuel status n ≡ none
unfolding wait_status
wait_status-busy zero status n busy = refl
wait_status-busy (suc fuel) status n busy =
    let here : (status n % 2 == 0) ≡ false = ground (arith, busy n (omega arith)) in
    rw here (wait_status-busy fuel status (n + 1) (λ i le. busy i (omega arith)))

-- MakeTripleFault asks the keyboard controller for the reset at the first read of its status whose
-- bit 0 is clear, whatever bit 1 says.
pub make_triple_fault-first :
    (status : ℕ → ℕ) (n fuel : ℕ)
    → n < fuel
    → status n % 2 ≡ 0
    → ((i : ℕ) → i < n → status i % 2 ≢ 0)
    → make_triple_fault fuel status ≡ some (write 0x64 0xFE ∷ halt ∷ [])
unfolding make_triple_fault
make_triple_fault-first status n fuel lt here before =
    let from_zero = ap (λ k. status k % 2) {x = 0 + n} {y = n} (omega arith) in
    rw
      (
        make_triple_fault,
        wait_status-done fuel status 0 n lt (from_zero ∙ here) (λ i lo hi. before i (omega arith)),
      )
      refl

-- While bit 0 stays set, MakeTripleFault waits, even where bit 1 is clear throughout.
pub make_triple_fault-waits :
    (status : ℕ → ℕ) (fuel : ℕ)
    → ((i : ℕ) → status i % 2 ≢ 0)
    → make_triple_fault fuel status ≡ none
unfolding make_triple_fault
make_triple_fault-waits status fuel busy =
    rw (make_triple_fault, wait_status-busy fuel status 0 (λ i le. busy i)) refl
