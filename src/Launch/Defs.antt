-- ===== src/Launch/Defs.antt =====
-- Kernel/arch/x86_64/bootx64.c, CPUID of Kernel/arch/x86_64/cpu.c, Kernel/src/panic.c and
-- Kernel/src/graphic/framebuffer.c. What the start does is a list of events in their order; the
-- instructions `cpuid` and `in` are parameters.
use cubik_os.Prelude.{
  ℕ, zero, suc, ◌+◌, ◌*◌, ◌/◌, ◌%◌, ◌^◌, Bool, true, false, ◌==◌, if◌then◌else◌, Option, none, some,
  List, [], ◌∷◌, ◌++◌, update, sweep, u32,
}
use cubik_os.Boot.Defs.{Tag, BootInfo, Parsed, parsed, overrun, spent, parse_stivale2_info}
use cubik_os.Interrupts.Defs.{pic_initialize, pic_disable, pit_initialize}

-- `write port byte` is a byte written to a port, and `interrupts` an instruction that switches them
-- on or off. The others are calls of the functions of those names.
pub data Event : Type 0 where
  write : ℕ → ℕ → Event
  interrupts : Bool → Event
  global_desc_table interrupt_desc_table memory acpi local_apic io_apic smbios smp scheduler : Event
  halt : Event

abbrev pub writes : List (ℕ × ℕ) → List Event
writes [] = []
writes (w ∷ ws) = write (w).0 (w).1 ∷ writes ws

-- `cpuid.edx & CPUID_EDX_APIC`
abbrev pub has_apic : ℕ → Bool
has_apic edx = edx / 2 ^ 9 % 2 == 1

-- The calls between EnableInterrupts and the end, less the lines that they write.
unfoldable pub start_devices : ℕ → List Event
start_devices edx =
    acpi
    ∷ ((if has_apic edx then writes pic_disable ++ (local_apic ∷ io_apic ∷ []) else [])
        ++ (smbios ∷ smp ∷ scheduler ∷ halt ∷ []))

-- The events up to the first that does not return: a function that is called may panic, hang or be
-- a fault, which `returns` says.
unfoldable pub until_stuck : (Event → Bool) → List Event → List Event
until_stuck returns [] = []
until_stuck returns (event ∷ events) =
    let rest = until_stuck returns events in if returns event then event ∷ rest else event ∷ []

-- ArchitectureInitialize; `edx` is what the processor says of its features. Where PIT_Initialize is
-- an exception, nothing comes after it. A wrong `bootInfo.check` has no effect.
unfoldable pub architecture_initialize : (Event → Bool) → ℕ → List Event
architecture_initialize returns edx = until_stuck returns (
    interrupts false
    ∷ global_desc_table
    ∷ interrupt_desc_table
    ∷ memory
    ∷ (writes pic_initialize ++ elim (pit_initialize 1000) [
      | none ↦ []
      | some timer ↦ writes timer ++ (interrupts true ∷ start_devices edx)
    ]))

-- kload_stivale2, from the tags on: the loop that stops the processor is left out, and a NULL address
-- makes no difference.
unfoldable pub kload_stivale2 :
    ℕ → (ℕ → Tag) → ℕ → BootInfo → (Event → Bool) → ℕ → Parsed (BootInfo × List Event)
kload_stivale2 fuel tags first info returns edx = elim (parse_stivale2_info fuel tags first info) [
  | parsed next ↦ parsed (next, architecture_initialize returns edx)
  | overrun ↦ overrun
  | spent ↦ spent
]

-- `ebx >> (i * 8) & 0xFF`
abbrev pub byte_at : ℕ → ℕ → ℕ
byte_at word i = word / 2 ^ (i * 8) % 2 ^ 8

-- The registers that `cpuid` sets.
pub record Registers : Type 0 where
  pub ebx : ℕ
  pub ecx : ℕ
  pub edx : ℕ

pub record CpuidInfo : Type 0 where
  pub vendor_str : ℕ → ℕ
  pub ecx : ℕ
  pub edx : ℕ

-- CPUID, with the three loops over the bytes of the registers; `old` is the uninitialised array.
unfoldable pub cpuid : (ℕ → Registers) → (ℕ → ℕ) → CpuidInfo
cpuid instruction old =
    let vendor = instruction 0 in
    let first = sweep (λ s i. update s i (byte_at vendor.ebx i)) 0 4 old in
    let second = sweep (λ s i. update s (i + 4) (byte_at vendor.edx i)) 0 4 first in
    let third = sweep (λ s i. update s (i + 8) (byte_at vendor.ecx i)) 0 4 second in
    record { vendor_str = third; ecx = (instruction 1).ecx; edx = (instruction 1).edx }

-- draw_rect: the inner loop for the row `i`, and the outer one. The indices are `unsigned`.
unfoldable pub draw_row : ℕ → (ℕ → ℕ) → ℕ → ℕ
draw_row i buffer = sweep (λ b j. update b (u32 (u32 (i * 1024) + j)) 0x33333333) 0 1024 buffer

unfoldable pub draw_rect : (ℕ → ℕ) → ℕ → ℕ
draw_rect buffer = sweep (λ b i. draw_row i b) 0 768 buffer

-- The loop of MakeTripleFault, on fuel: `status` is what the successive reads of port 0x64 give.
-- `0x02 != 0` is 1, and the test is of that bit. The result is the number of the read that ends it.
unfoldable pub wait_status : ℕ → (ℕ → ℕ) → ℕ → Option ℕ
wait_status zero status n = none
wait_status (suc fuel) status n =
    let rest = wait_status fuel status (n + 1) in if status n % 2 == 0 then some n else rest

unfoldable pub make_triple_fault : ℕ → (ℕ → ℕ) → Option (List Event)
make_triple_fault fuel status = elim (wait_status fuel status 0) [
  | none ↦ none
  | some n ↦ some (write 0x64 0xFE ∷ halt ∷ [])
]
