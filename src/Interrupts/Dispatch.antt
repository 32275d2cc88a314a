-- ===== src/Interrupts/Dispatch.antt =====
-- DispatchInterrupts over a sequence of interrupts.
use cubik_os.Prelude.{
  ℕ, ◌≡◌, ◌≢◌, ◌≤◌, ◌<◌, refl, ◌⊎◌, inl, inr, Option, none, some, List, [], ◌∷◌, ◌++◌, ◌==◌, ltb,
  if◌then◌else◌, arith, ◌∙◌, ap, sym, true, false, ℕ_discrete, update,
}
use cubik_os.Interrupts.Defs.{
  Writes, Cpu, restored, restore_interrupts, register_interrupt_handler, dispatch_interrupts,
}
use mathlib.Core.List.{append_assoc, append-nil}

-- DispatchInterrupts for one interrupt after the other.
unfoldable pub dispatch_all : (ℕ → Cpu → Cpu) → List ℕ → Cpu → Option Cpu
dispatch_all call [] c = some c
dispatch_all call (n ∷ ns) c = elim (dispatch_interrupts call n c) [
  | none ↦ none
  | some next ↦ dispatch_all call ns next
]

-- The bytes for the end of an interrupt.
abbrev pub end_of : ℕ → Writes
end_of n = if ltb n 40 then (0x20, 0x20) ∷ [] else (0xA0, 0x20) ∷ (0x20, 0x20) ∷ []

-- The bytes for one interrupt: those of its handler, if it has one, and then the end of the
-- interrupt, which from 40 on goes to both controllers.
abbrev pub bytes_for : (ℕ → ℕ) → (ℕ → Writes) → ℕ → Writes
bytes_for handlers own n = (if handlers n == 0 then [] else own (handlers n)) ++ end_of n

abbrev pub bytes_for_all : (ℕ → ℕ) → (ℕ → Writes) → List ℕ → Writes
bytes_for_all handlers own [] = []
bytes_for_all handlers own (n ∷ ns) = bytes_for handlers own n ++ bytes_for_all handlers own ns

-- The interrupts are numbers of the table, and no exception of the processor is without a handler.
abbrev pub IsServed : (ℕ → ℕ) → List ℕ → Type 0
IsServed handlers [] = Unit
IsServed handlers (n ∷ ns) = (n < 256) × ((handlers n ≢ 0) ⊎ (32 ≤ n)) × IsServed handlers ns

-- The handlers write bytes of their own to the ports and leave the table of handlers as it is.
abbrev pub IsQuiet : (ℕ → Cpu → Cpu) → (ℕ → Writes) → Type 0
IsQuiet call own = (f : ℕ) (c : Cpu) → call f c ≡ record c { writes = c.writes ++ own f }

end_bytes : (n : ℕ) → restore_interrupts n ≡ end_of n
unfolding restore_interrupts
end_bytes n = ground arith

module _ (call : ℕ → Cpu → Cpu) (own : ℕ → Writes) (quiet : IsQuiet call own) where
  with_bytes : Cpu → Writes → Cpu
  with_bytes c ws = record c { writes = c.writes ++ ws }

  dispatch_interrupts-bytes :
      (n : ℕ) (c : Cpu)
      → (c.handlers n ≢ 0) ⊎ (32 ≤ n)
      → dispatch_interrupts call n c ≡ some (with_bytes c (bytes_for c.handlers own n))
  unfolding dispatch_interrupts restored with_bytes
  dispatch_interrupts-bytes n c served = elim (ℕ_discrete (c.handlers n) 0) [
    | yes empty ↦
        let high : 32 ≤ n = elim served [
          | inl some_handler ↦ absurd (some_handler empty)
          | inr le ↦ le
        ] in
        let no_handler : (c.handlers n == 0) ≡ true = ground (arith, empty) in
        let no_panic : ltb n 32 ≡ false = ground (arith, high) in
        rw (no_handler, no_panic) (ap (λ ws. some (with_bytes c ws)) (end_bytes n))
    | no some_handler ↦
        let handler : (c.handlers n == 0) ≡ false = ground (arith, some_handler) in
        rw (handler, quiet (c.handlers n) c)
          (ap (λ ws. some (record c { writes = ws }))
            (append_assoc c.writes (own (c.handlers n)) _
              ∙ ap (λ ws. c.writes ++ (own (c.handlers n) ++ ws)) (end_bytes n)))
  ]

  dispatch_all-bytes :
      (ns : List ℕ) (c : Cpu)
      → IsServed c.handlers ns
      → dispatch_all call ns c ≡ some (with_bytes c (bytes_for_all c.handlers own ns))
  unfolding dispatch_all with_bytes
  dispatch_all-bytes [] c served =
      ap (λ ws. some (record c { writes = ws })) (sym (append-nil c.writes))
  dispatch_all-bytes (n ∷ ns) c (lt, here, served) =
      rw (dispatch_all, dispatch_interrupts-bytes n c here)
        (dispatch_all-bytes ns (with_bytes c (bytes_for c.handlers own n)) served
          ∙ ap (λ ws. some (record c { writes = ws }))
              (append_assoc c.writes (bytes_for c.handlers own n)
                (bytes_for_all c.handlers own ns)))

  dispatch_interrupts-panics :
      (n : ℕ) (c : Cpu) → n < 32 → c.handlers n ≡ 0 → dispatch_interrupts call n c ≡ none
  unfolding dispatch_interrupts
  dispatch_interrupts-panics n c lt empty = ground (arith, empty)

  dispatch_all-panics :
      (before : List ℕ) (n : ℕ) (later : List ℕ) (c : Cpu)
      → IsServed c.handlers before
      → n < 32
      → c.handlers n ≡ 0
      → dispatch_all call (before ++ (n ∷ later)) c ≡ none
  unfolding dispatch_all with_bytes
  dispatch_all-panics [] n later c served lt empty =
      rw (dispatch_all, dispatch_interrupts-panics n c lt empty) refl
  dispatch_all-panics (k ∷ before) n later c (small, here, served) lt empty =
      rw (dispatch_all, dispatch_interrupts-bytes k c here)
        (dispatch_all-panics before n later (with_bytes c (bytes_for c.handlers own k)) served lt
          empty)

-- DispatchInterrupts over a sequence of interrupts, for handlers that write bytes of their own to
-- the ports and leave the table as it is. Where every number is one of the table and no exception
-- lacks a handler, the bytes written are, for each interrupt in turn, those of its handler, if
-- RegisterInterruptHandler has given it one, and then the end of the interrupt: 0x20 to port 0x20,
-- and from 40 on first 0x20 to port 0xA0. The first exception without a handler is a panic.
pub dispatch_all-acknowledged :
    (call : ℕ → Cpu → Cpu) (own : ℕ → Writes) (num func : ℕ) (ns : List ℕ) (c : Cpu)
    → IsQuiet call own
    → num < 256
    → func ≢ 0
    → IsServed (update c.handlers num func) ns
    → (dispatch_all call ns (register_interrupt_handler num func c)
        ≡ some (record c {
          handlers = update c.handlers num func;
          writes = c.writes ++ bytes_for_all (update c.handlers num func) own ns;
        }))
      × ((n : ℕ) (later : List ℕ)
          → n < 32
          → n ≢ num
          → c.handlers n ≡ 0
          → dispatch_all call (ns ++ (n ∷ later)) (register_interrupt_handler num func c) ≡ none)
unfolding register_interrupt_handler with_bytes
dispatch_all-acknowledged call own num func ns c quiet in_table some_handler served = (
  dispatch_all-bytes call own quiet ns (register_interrupt_handler num func c) served,
  λ n later lt ne empty.
      dispatch_all-panics call own quiet ns n later (register_interrupt_handler num func c) served
        lt (ground (arith, ne, empty)),
)
