-- ===== src/Launch/Drawn.antt =====
-- What draw_rect and CPUID leave in their arrays.
use cubik_os.Prelude.{
  ℕ, suc, ◌+◌, ◌*◌, ◌^◌, ◌≤◌, ◌<◌, ◌≡◌, ltb, if◌then◌else◌, update, sweep_lem, arith, ◌∙◌, u32,
}
use cubik_os.Launch.Defs.{draw_row, draw_rect}

-- The cells before `stop` have the colour, and the others are as they were.
abbrev IsDrawn : (ℕ → ℕ) → ℕ → (ℕ → ℕ) → Type 0
IsDrawn old stop buffer = (k : ℕ) → buffer k ≡ (if ltb k stop then 0x33333333 else old k)

draw_row-IsDrawn :
    (old buffer : ℕ → ℕ) (i : ℕ)
    → i < 768
    → IsDrawn old (i * 1024) buffer
    → IsDrawn old (suc i * 1024) (draw_row i buffer)
unfolding draw_row
draw_row-IsDrawn old buffer i lt drawn k =
    sweep_lem (λ b j. update b (u32 (u32 (i * 1024) + j)) 0x33333333)
      (λ b j. j ≤ 1024 → IsDrawn old (i * 1024 + j) b)
      (λ b j h le n. ground (arith, h (omega arith) n, lt)) 1024 0 buffer
      (λ le n. drawn n ∙ ground arith) (omega arith) k
    ∙ ground arith

-- draw_rect gives the first 1024 * 768 cells of the frame buffer the colour, and changes no other.
pub draw_rect-drawn :
    (buffer : ℕ → ℕ) (k : ℕ)
    → draw_rect buffer k ≡ (if ltb k (1024 * 768) then 0x33333333 else buffer k)
unfolding draw_rect
draw_rect-drawn buffer k =
    sweep_lem (λ b i. draw_row i b) (λ b i. i ≤ 768 → IsDrawn buffer (i * 1024) b)
      (λ b i h le. draw_row-IsDrawn buffer b i le (h (omega arith))) 768 0 buffer
      (λ le n. ground arith) (omega arith) k

-- Four bytes, the lowest first, as one word.
abbrev pub word_of : (ℕ → ℕ) → ℕ → ℕ
word_of s i = s i + 2 ^ 8 * s (i + 1) + 2 ^ 16 * s (i + 2) + 2 ^ 24 * s (i + 3)
