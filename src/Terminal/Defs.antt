-- ===== src/Terminal/Defs.antt =====
-- Kernel/src/graphic/terminal.c: the VGA text terminal, 25 rows of 80 cells.
use cubik_os.Prelude.{
  ℕ, zero, suc, ◌+◌, ◌-◌, ◌*◌, ◌%◌, ◌/◌, ◌^◌, bit_or, ltb, ◌==◌, if◌then◌else◌, List, [], ◌∷◌,
  update, sweep, u16, u64,
}

-- `row`, `column` and the cells behind `t_buffer`; a cell past the 2000 of the screen is memory
-- that the terminal should leave alone.
pub record Terminal : Type 0 where
  pub row : ℕ
  pub column : ℕ
  pub cells : ℕ → ℕ

abbrev pub color : ℕ
color = bit_or 15 (0 * 2 ^ 4)

-- `' ' | color << 8`
abbrev pub blank : ℕ
blank = u16 (bit_or b' ' (color * 2 ^ 8))

-- `(uint16_t)c | (uint16_t)color << 8`, where `char` is signed
unfoldable pub cell_of : ℕ → ℕ
cell_of c = u16 (bit_or (if ltb c 128 then c else c + (2 ^ 16 - 2 ^ 8)) (color * 2 ^ 8))

unfoldable pub clear_screen : Terminal → Terminal
clear_screen t = record t { cells = sweep (λ f i. update f i blank) 0 2000 t.cells }

-- The two loops of line_move_up, which work in place.
unfoldable pub move_rows : (ℕ → ℕ) → ℕ → ℕ
move_rows cells = sweep (λ f i. update f i (f (i + 80))) 0 1920 cells

unfoldable pub blank_last : (ℕ → ℕ) → ℕ → ℕ
blank_last cells = sweep (λ f i. update f (1920 + i) blank) 0 80 cells

unfoldable pub line_move_up : Terminal → Terminal
line_move_up t = record t { cells = blank_last (move_rows t.cells) }

unfoldable pub new_line : Terminal → Terminal
new_line t =
    let next = record t { row = u64 (t.row + 1); column = 0 } in
    if next.row == 25 then line_move_up (record next { row = next.row - 1 }) else next

unfoldable pub add_char : ℕ → Terminal → Terminal
add_char c t =
    let next = record t {
      cells = update t.cells (u64 (t.row * 80 + t.column)) (cell_of c);
      column = u64 (t.column + 1);
    } in
    if next.column == 80 then new_line next else next

-- The loop of WriteLine over the bytes before the terminating NUL.
unfoldable pub add_chars : List ℕ → Terminal → Terminal
add_chars [] t = t
add_chars (c ∷ text) t = add_chars text (add_char c t)

unfoldable pub write_line : List ℕ → Terminal → Terminal
write_line text t = new_line (add_chars text t)

-- The loop of WriteLong with `n` rounds left.
unfoldable pub add_digits : ℕ → ℕ → Terminal → Terminal
add_digits zero val t = t
add_digits (suc n) val t = add_digits n (val / 10) (add_char (48 + val % 10) t)

unfoldable pub write_long : ℕ → Terminal → Terminal
write_long val t = new_line (add_digits 79 val t)
