-- ===== src/Interrupts/Tests.antt =====
-- The tables, the timer and the dispatch run on small inputs.
use cubik_os.Prelude.{
  ℕ, ◌≡◌, ◌≢◌, none, some, [], ◌∷◌, ◌++◌, List, update, ◌<◌, inl, inr, refl, arith,
}
use cubik_os.Interrupts.Defs.{Gate, Cpu, register_interrupt_handler}
use cubik_os.Interrupts.Dispatch.{dispatch_all, dispatch_all-acknowledged}

abbrev no_gates : ℕ → Gate
no_gates n = record { base_low = 0; selector = 0; ist = 0; flags = 0; base_med = 0; base_high = 0 }

abbrev routine : ℕ → ℕ
routine n = 0xFFFFFFFF80100000

abbrev quiet : Cpu
quiet = record { handlers = λ n. 0; writes = [] }

-- A handler that writes one byte.
abbrev write_one : ℕ → Cpu → Cpu
write_one func c = record c { writes = c.writes ++ ((0x60, func) ∷ []) }

-- The keyboard, the timer, which has no handler here, and the mouse.
abbrev three_interrupts : List ℕ
three_interrupts = 33 ∷ 32 ∷ 44 ∷ []

dispatch_all-acknowledged_example :
    (dispatch_all write_one three_interrupts (register_interrupt_handler 33 77 quiet)
      ≡ some (record {
        handlers = update quiet.handlers 33 77;
        writes = (0x60, 77) ∷ (0x20, 0x20) ∷ (0x20, 0x20) ∷ (0xA0, 0x20) ∷ (0x20, 0x20) ∷ [];
      }))
    × ((n : ℕ) (later : List ℕ)
        → n < 32
        → n ≢ 33
        → quiet.handlers n ≡ 0
        → dispatch_all write_one
            (three_interrupts ++ (n ∷ later))
            (register_interrupt_handler 33 77 quiet)
          ≡ none)
dispatch_all-acknowledged_example =
    dispatch_all-acknowledged write_one (λ f. (0x60, f) ∷ []) 33 77 three_interrupts quiet
      (λ f c. refl) (omega arith) (omega arith)
      (
        omega arith,
        inl (omega arith),
        (omega arith, inr (omega arith), (omega arith, inr (omega arith), tt)),
      )
