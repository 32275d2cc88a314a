-- ===== src/Terminal/Tests.antt =====
-- The terminal run on short texts.
use cubik_os.Prelude.{ℕ, ◌≡◌, List, [], ◌∷◌, arith}
use cubik_os.Terminal.Defs.{Terminal, write_line}
use cubik_os.Terminal.Screen.{view, put_all, break, IsInside, write_line-refines}

abbrev greeting : List ℕ
greeting = 72 ∷ 105 ∷ []

abbrev fresh : Terminal
fresh = record { row = 3; column = 0; cells = λ j. 0 }

fresh-IsInside : IsInside fresh
fresh-IsInside = record { row_lt = omega arith; column_lt = omega arith }

write_line-refines_example :
    (view (write_line greeting fresh) ≡ break (put_all greeting (view fresh)))
    × IsInside (write_line greeting fresh)
write_line-refines_example = write_line-refines greeting fresh fresh-IsInside
