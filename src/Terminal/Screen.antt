-- ===== src/Terminal/Screen.antt =====
-- The terminal as a screen of 2000 cells with one cursor position, and the refinement to it.
use cubik_os.Prelude.{
  ℕ, ◌+◌, ◌*◌, ◌/◌, ◌<◌, ◌≡◌, refl, arith, ltb, ◌==◌, if◌then◌else◌, List, [], ◌∷◌, update, fun_ext,
  ap, sym, ◌∙◌, ◌-◌, u64,
}
use cubik_os.Terminal.Defs.{
  Terminal, blank, cell_of, line_move_up, new_line, add_char, add_chars, write_line,
}
use cubik_os.Terminal.Scroll.{line_move_up_lem}

pub record Screen : Type 0 where
  pub pos : ℕ
  pub cells : ℕ → ℕ

abbrev pub view : Terminal → Screen
view t = record { pos = t.row * 80 + t.column; cells = t.cells }

-- The text moves up by a row.
unfoldable pub scroll : (ℕ → ℕ) → ℕ → ℕ
scroll f j = if ltb j 1920 then f (j + 80) else if ltb j 2000 then blank else f j

-- The cursor goes to `pos`; behind the last cell the screen scrolls.
abbrev pub move_to : ℕ → (ℕ → ℕ) → Screen
move_to pos f =
    if pos == 2000 then record { pos = 1920; cells = scroll f } else record { pos = pos; cells = f }

abbrev pub put : ℕ → Screen → Screen
put c s = move_to (s.pos + 1) (update s.cells s.pos (cell_of c))

-- To the start of the next row.
abbrev pub break : Screen → Screen
break s = move_to ((s.pos / 80 + 1) * 80) s.cells

abbrev pub put_all : List ℕ → Screen → Screen
put_all [] s = s
put_all (c ∷ text) s = put_all text (put c s)

-- Between calls the cursor lies on the screen.
pub record IsInside (t : Terminal) : Type 0 where
  pub row_lt : t.row < 25
  pub column_lt : t.column < 80

scroll-cells : (t : Terminal) → (line_move_up t).cells ≡ scroll t.cells
unfolding scroll
scroll-cells t = fun_ext (line_move_up_lem t)

line_move_up-cursor :
    (t : Terminal) → ((line_move_up t).row ≡ t.row) × ((line_move_up t).column ≡ t.column)
unfolding line_move_up
line_move_up-cursor t = (refl, refl)

-- new_line ends a row whose column may already have reached 80.
new_line-break :
    (t : Terminal)
    → t.row < 25
    → (view (new_line t) ≡ move_to ((t.row + 1) * 80) t.cells) × IsInside (new_line t)
unfolding new_line
new_line-break t h =
    let last : Terminal = record t { row = u64 (t.row + 1) - 1; column = 0 } in
    (
      ground (arith, scroll-cells last, line_move_up-cursor last),
      ground (arith, scroll-cells last, line_move_up-cursor last),
    )

-- From a cursor inside the screen, add_char puts one cell and keeps the cursor inside.
pub add_char-put :
    (c : ℕ) (t : Terminal)
    → IsInside t
    → (view (add_char c t) ≡ put c (view t)) × IsInside (add_char c t)
unfolding add_char
add_char-put c t inside =
    let f : ℕ → ℕ = update t.cells (t.row * 80 + t.column) (cell_of c) in
    let next : Terminal = record t { cells = f; column = u64 (t.column + 1) } in
    let at : u64 (t.row * 80 + t.column) ≡ t.row * 80 + t.column = omega arith in
    rw at (ground (arith, new_line-break next inside.row_lt))

pub add_chars-put_all :
    (text : List ℕ) (t : Terminal)
    → IsInside t
    → (view (add_chars text t) ≡ put_all text (view t)) × IsInside (add_chars text t)
unfolding add_chars
add_chars-put_all [] t inside = (refl, inside)
add_chars-put_all (c ∷ text) t inside =
    let (e, inside') = add_char-put c t inside in
    let (e', inside'') = add_chars-put_all text (add_char c t) inside' in
    (e' ∙ ap (put_all text) e, inside'')

break-view : (t : Terminal) → IsInside t → break (view t) ≡ move_to ((t.row + 1) * 80) t.cells
break-view t inside = ap (λ (r : ℕ). move_to ((r + 1) * 80) t.cells) (omega arith)

-- WriteLine, with the cursor on the screen, refines: put every character at the cursor, then
-- go to the start of the next row. The cursor stays on the screen.
pub write_line-refines :
    (text : List ℕ) (t : Terminal)
    → IsInside t
    → (view (write_line text t) ≡ break (put_all text (view t))) × IsInside (write_line text t)
unfolding write_line
write_line-refines text t inside =
    let (e, inside') = add_chars-put_all text t inside in
    let (f, inside'') = new_line-break (add_chars text t) inside'.row_lt in
    (f ∙ sym (break-view (add_chars text t) inside') ∙ ap break e, inside'')
