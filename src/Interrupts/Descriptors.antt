-- ===== src/Interrupts/Descriptors.antt =====
-- The addresses in the descriptors, put together as the processor does.
use native.Mathlib.Nat.{div-lt_iff_lt-mul}
use cubik_os.Prelude.{
  ℕ, ◌+◌, ◌*◌, ◌/◌, ◌%◌, ◌^◌, ◌≤◌, ◌<◌, ◌≡◌, false, some, [], ◌∷◌, ◌==◌, arith, u16,
}
use cubik_os.Interrupts.Defs.{Gate, load_global_desc_table, pit_initialize, pit_frequency}

-- The address in an interrupt gate.
abbrev pub offset_of : Gate → ℕ
offset_of g = g.base_low + 2 ^ 16 * g.base_med + 2 ^ 32 * g.base_high

-- The base address of the task state segment is the address that LoadGlobalDescTable is given.
pub load_global_desc_table_lem :
    (a : ℕ)
    → a < 2 ^ 64
    → (load_global_desc_table a).base_low
        + 2 ^ 16 * (load_global_desc_table a).base_medium
        + 2 ^ 24 * (load_global_desc_table a).base_high
        + 2 ^ 32 * (load_global_desc_table a).base_upper
      ≡ a
unfolding load_global_desc_table
load_global_desc_table_lem a lt = omega arith

divisor_lt : (freq : ℕ) → 19 ≤ freq → pit_frequency / freq < 2 ^ 16
divisor_lt freq lo = (div-lt_iff_lt-mul (omega arith)).1 (omega arith)

-- For 19 Hz or more, the two bytes that PIT_Initialize writes to the timer are the divisor.
pub pit_initialize_lem :
    (freq : ℕ)
    → 19 ≤ freq
    → (low : ℕ) × (high : ℕ) × (pit_initialize freq
        ≡ some ((0x43, 0x36) ∷ (0x40, low) ∷ (0x40, high) ∷ []))
      × (low < 2 ^ 8)
      × (high < 2 ^ 8)
      × (low + 2 ^ 8 * high ≡ pit_frequency / freq)
unfolding pit_initialize
pit_initialize_lem freq lo =
    let q = pit_frequency / freq in
    let small : q < 2 ^ 16 = divisor_lt freq lo in
    let test : (freq == 0) ≡ false = ground arith in
    let whole : u16 q ≡ q = omega arith in
    (q % 2 ^ 8, q / 2 ^ 8 % 2 ^ 8, rw (test, whole), omega arith, omega arith, omega arith)
