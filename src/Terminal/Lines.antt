-- ===== src/Terminal/Lines.antt =====
-- Where the text of WriteLine and the digits of WriteLong end up.
use cubik_os.Prelude.{
  ℕ, zero, suc, ◌+◌, ◌-◌, ◌*◌, ◌/◌, ◌%◌, ◌≤◌, ◌<◌, ◌≡◌, refl, arith, ltb, ◌&&◌, leb, if◌then◌else◌,
  List, [], ◌∷◌, ap, ◌∙◌, sym, length, get_or, dec_lt, fun_ext, ap₂,
}
use cubik_os.Terminal.Defs.{
  Terminal, cell_of, new_line, add_char, add_chars, write_line, add_digits, write_long,
}
use cubik_os.Terminal.Screen.{
  Screen, view, put_all, scroll, IsInside, add_char-put, add_chars-put_all, write_line-refines,
}

-- The cells from `start` on hold `text`, and every other cell is as before.
abbrev pub with_text : (ℕ → ℕ) → ℕ → List ℕ → ℕ → ℕ
with_text f start text j =
    if leb start j && ltb j (start + length text) then cell_of (get_or text (j - start) 0) else f j

-- A row as it is filled.
record Filled (t : Terminal) (text : List ℕ) (t' : Terminal) : Type 0 where
  row : t'.row ≡ t.row
  column : t'.column ≡ t.column + length text
  cells : (j : ℕ) → t'.cells j ≡ with_text t.cells (t.row * 80 + t.column) text j

add_char-Filled :
    (c : ℕ) (t : Terminal) → t.row < 25 → t.column + 1 < 80 → Filled t (c ∷ []) (add_char c t)
unfolding add_char
add_char-Filled c t h k = record {
  row = ground arith;
  column = ground arith;
  cells = λ j. ground arith;
}

with_text-cons :
    (f : ℕ → ℕ) (start c : ℕ) (text : List ℕ) (j : ℕ)
    → with_text (λ i. with_text f start (c ∷ []) i) (start + 1) text j
      ≡ with_text f start (c ∷ text) j
with_text-cons f start c text j = elim (dec_lt start j) [
  | yes lt ↦ let e : j - start ≡ suc (j - (start + 1)) = omega arith in rw e (ground arith)
  | no ge ↦ let e : j - start ≡ 0 = omega arith in rw e (ground arith)
]

add_chars-Filled :
    (text : List ℕ) (t : Terminal)
    → t.row < 25
    → t.column + length text < 80
    → Filled t text (add_chars text t)
unfolding add_chars
add_chars-Filled [] t h k = record { row = refl; column = omega arith; cells = λ j. ground arith }
add_chars-Filled (c ∷ text) t h k =
    let first = add_char-Filled c t h (omega arith) in
    let rest =
      add_chars-Filled text (add_char c t) (omega (arith, first.row))
        (omega (arith, first.column)) in
    record {
      row = rest.row ∙ first.row;
      column = omega (arith, rest.column, first.column);
      cells = λ j.
          rest.cells j
          ∙ ap₂ (λ g s. with_text g s text j) (fun_ext first.cells)
              (omega (arith, first.row, first.column))
          ∙ with_text-cons t.cells (t.row * 80 + t.column) c text j;
    }

-- A text shorter than the row, written from its start in any row but the last, stands in that row
-- and changes no other cell; the cursor goes to the start of the next row.
pub write_line-row :
    (text : List ℕ) (t : Terminal)
    → t.row < 24
    → t.column ≡ 0
    → length text < 80
    → ((write_line text t).row ≡ t.row + 1)
      × ((write_line text t).column ≡ 0)
      × ((j : ℕ) → (write_line text t).cells j ≡ with_text t.cells (t.row * 80) text j)
unfolding write_line new_line
write_line-row text t h e k =
    let filled = add_chars-Filled text t (omega arith) (omega arith) in
    let start : t.row * 80 + t.column ≡ t.row * 80 = omega arith in
    (
      ground (arith, filled.row),
      ground (arith, filled.row),
      λ j. ground (arith, filled.row, filled.cells j, start),
    )

-- The decimal digits of `val`, the lowest first, as the characters that WriteLong adds.
abbrev pub digit_chars : ℕ → ℕ → List ℕ
digit_chars zero val = []
digit_chars (suc n) val = (48 + val % 10) ∷ digit_chars n (val / 10)

add_digits-add_chars :
    (n val : ℕ) (t : Terminal) → add_digits n val t ≡ add_chars (digit_chars n val) t
unfolding add_digits add_chars
add_digits-add_chars zero val t = refl
add_digits-add_chars (suc n) val t = add_digits-add_chars n (val / 10) (add_char (48 + val % 10) t)

-- WriteLong is WriteLine of 79 decimal digits, the lowest first, padded with zeros.
pub write_long-digits :
    (val : ℕ) (t : Terminal) → write_long val t ≡ write_line (digit_chars 79 val) t
unfolding write_long write_line
write_long-digits val t = ap new_line (add_digits-add_chars 79 val t)

add_char-outside :
    (c : ℕ) (t : Terminal) → IsInside t → (j : ℕ) → 2000 ≤ j → (add_char c t).cells j ≡ t.cells j
unfolding scroll
add_char-outside c t inside j h =
    ap (λ (s : Screen). s.cells j) (add_char-put c t inside).0 ∙ ground arith

add_chars-outside :
    (text : List ℕ) (t : Terminal)
    → IsInside t
    → (j : ℕ) → 2000 ≤ j
    → (add_chars text t).cells j ≡ t.cells j
unfolding add_chars
add_chars-outside [] t inside j h = refl
add_chars-outside (c ∷ text) t inside j h =
    add_chars-outside text (add_char c t) (add_char-put c t inside).1 j h
    ∙ add_char-outside c t inside j h

-- With the cursor on the screen, no text makes WriteLine write outside the 2000 cells of the
-- screen.
pub write_line-outside :
    (text : List ℕ) (t : Terminal)
    → IsInside t
    → (j : ℕ) → 2000 ≤ j
    → (write_line text t).cells j ≡ t.cells j
unfolding scroll
write_line-outside text t inside j h =
    let same : (put_all text (view t)).cells j ≡ t.cells j =
      ap (λ (s : Screen). s.cells j) (sym (add_chars-put_all text t inside).0)
      ∙ add_chars-outside text t inside j h in
    ap (λ (s : Screen). s.cells j) (write_line-refines text t inside).0 ∙ ground (arith, same)
