-- ===== src/Terminal/Scroll.antt =====
-- What the loops of the terminal do to the cells.
use cubik_os.Prelude.{ℕ, ◌+◌, ◌≡◌, arith, ltb, if◌then◌else◌, update, sweep_lem}
use cubik_os.Terminal.Defs.{Terminal, blank, clear_screen, move_rows, blank_last, line_move_up}

-- After `i` rounds the first `i` cells are those 80 further on.
move_rows_lem : (f : ℕ → ℕ) (j : ℕ) → move_rows f j ≡ (if ltb j 1920 then f (j + 80) else f j)
unfolding move_rows
move_rows_lem f j =
    sweep_lem (λ g i. update g i (g (i + 80)))
      (λ g i. (j : ℕ) → g j ≡ (if ltb j i then f (j + 80) else f j))
      (λ g i h j. ground (arith, h j, h (i + 80))) 1920 0 f (λ j. ground arith) j

blank_last_lem :
    (f : ℕ → ℕ) (j : ℕ)
    → blank_last f j ≡ (if ltb j 1920 then f j else if ltb j 2000 then blank else f j)
unfolding blank_last
blank_last_lem f j =
    sweep_lem (λ g i. update g (1920 + i) blank)
      (λ g i. (j : ℕ) → g j ≡ (if ltb j 1920 then f j else if ltb j (1920 + i) then blank else f j))
      (λ g i h j. ground (arith, h j)) 80 0 f (λ j. ground arith) j

-- Scrolling moves every row up by one, blanks the last, and writes nothing past the screen.
pub line_move_up_lem :
    (t : Terminal) (j : ℕ)
    → (line_move_up t).cells j
      ≡ (if ltb j 1920 then t.cells (j + 80) else if ltb j 2000 then blank else t.cells j)
unfolding line_move_up
line_move_up_lem t j = ground (arith, blank_last_lem (move_rows t.cells) j, move_rows_lem t.cells j)

-- clear_screen blanks the 2000 cells of the screen and no other, and leaves the cursor alone.
pub clear_screen_lem :
    (t : Terminal) (j : ℕ) → (clear_screen t).cells j ≡ (if ltb j 2000 then blank else t.cells j)
unfolding clear_screen
clear_screen_lem t j =
    sweep_lem (λ g i. update g i blank)
      (λ g i. (j : ℕ) → g j ≡ (if ltb j i then blank else t.cells j))
      (λ g i h j. ground (arith, h j)) 2000 0 t.cells (λ j. ground arith) j
