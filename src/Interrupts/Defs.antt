-- ===== src/Interrupts/Defs.antt =====
-- Kernel/arch/x86_64/{idt,gdt,interrupts,pic,pit}.c.
-- Loading a table's address into the processor is not modelled, and neither are `cli` and `sti`.
use cubik_os.Prelude.{
  ℕ, ◌/◌, ◌%◌, ◌^◌, Option, none, some, List, [], ◌∷◌, ◌++◌, ◌==◌, ltb, leb, if◌then◌else◌, update,
  sweep, u16, u32, bit_or,
}

pub record Gate : Type 0 where
  pub base_low : ℕ
  pub selector : ℕ
  pub ist : ℕ
  pub flags : ℕ
  pub base_med : ℕ
  pub base_high : ℕ

abbrev pub idt_flags_intgate : ℕ
idt_flags_intgate = 0x8E

abbrev pub idt_flags_user : ℕ
idt_flags_user = 0b01100000

-- The literal that LoadInterruptDescTable writes for the handler at `addr`.
unfoldable pub gate : ℕ → ℕ → Gate
gate flags addr = record {
  base_low = addr % 2 ^ 16;
  selector = 8;
  ist = 0;
  flags = flags;
  base_med = addr / 2 ^ 16 % 2 ^ 16;
  base_high = addr / 2 ^ 32 % 2 ^ 32;
}

-- LoadInterruptDescTable on the table `entries`; `isr_tables` is an array of the assembly.
unfoldable pub load_interrupt_desc_table : (ℕ → ℕ) → (ℕ → Gate) → ℕ → Gate
load_interrupt_desc_table isr_tables entries =
    let filled =
      sweep (λ t num. update t num (gate idt_flags_intgate (isr_tables num))) 0 48 entries in
    update (update filled 127 (gate idt_flags_intgate (isr_tables 32))) 128
      (gate (bit_or idt_flags_intgate idt_flags_user) (isr_tables 33))

pub record TaskEntry : Type 0 where
  pub len : ℕ
  pub base_low : ℕ
  pub base_medium : ℕ
  pub flags_a : ℕ
  pub flags_b : ℕ
  pub base_high : ℕ
  pub base_upper : ℕ

-- The entry that LoadGlobalDescTable writes; 104 is sizeof(struct TaskStateSegment).
unfoldable pub load_global_desc_table : ℕ → TaskEntry
load_global_desc_table tss_addr = record {
  len = 104;
  base_low = tss_addr % 2 ^ 16;
  base_medium = tss_addr / 2 ^ 16 % 2 ^ 8;
  flags_a = 0b10001001;
  flags_b = 0;
  base_high = tss_addr / 2 ^ 24 % 2 ^ 8;
  base_upper = u32 (tss_addr / 2 ^ 32);
}

-- Bytes written to ports, in order.
abbrev pub Writes : Type 0
Writes = List (ℕ × ℕ)

unfoldable pub pic_initialize : Writes
pic_initialize =
    (0x20, 0x11)
    ∷ (0xA0, 0x11)
    ∷ (0x21, 0x20)
    ∷ (0xA1, 0x28)
    ∷ (0x21, 0x04)
    ∷ (0xA1, 0x02)
    ∷ (0x21, 0x01)
    ∷ (0xA1, 0x01)
    ∷ (0x21, 0)
    ∷ (0xA1, 0)
    ∷ []

unfoldable pub pic_disable : Writes
pic_disable = (0xA1, 0xFF) ∷ (0x21, 0xFF) ∷ []

unfoldable pub restore_interrupts : ℕ → Writes
restore_interrupts i = if leb 40 i then (0xA0, 0x20) ∷ (0x20, 0x20) ∷ [] else (0x20, 0x20) ∷ []

abbrev pub pit_frequency : ℕ
pit_frequency = 0x1234DE

-- A division by 0 is an exception of the processor (`none`).
unfoldable pub pit_initialize : ℕ → Option Writes
pit_initialize freq =
    if freq == 0
    then none
    else (let divisor = u16 (pit_frequency / freq) in
        some ((0x43, 0x36) ∷ (0x40, divisor % 2 ^ 8) ∷ (0x40, divisor / 2 ^ 8 % 2 ^ 8) ∷ []))

-- g_IsrHandlers, with 0 for no handler, and the bytes that have been written.
pub record Cpu : Type 0 where
  pub handlers : ℕ → ℕ
  pub writes : Writes

unfoldable pub register_interrupt_handler : ℕ → ℕ → Cpu → Cpu
register_interrupt_handler num func c = record c { handlers = update c.handlers num func }

unfoldable pub restored : ℕ → Cpu → Cpu
restored i c = record c { writes = c.writes ++ restore_interrupts i }

-- DispatchInterrupts. `call` is what the code at a handler's address does; `none` is CallPanic,
-- which does not return.
unfoldable pub dispatch_interrupts : (ℕ → Cpu → Cpu) → ℕ → Cpu → Option Cpu
dispatch_interrupts call intno c =
    if c.handlers intno == 0
    then (if ltb intno 32 then none else some (restored intno c))
    else some (restored intno (call (c.handlers intno) c))
