-- ===== src/Start/Tests.antt =====
-- A kernel at 1 MiB, and small memory maps.
use cubik_os.Prelude.{
  ℕ, ◌≡◌, ◌+◌, ◌-◌, ◌*◌, ◌%◌, ◌<◌, ◌≤◌, ◌^◌, ◌==◌, true, false, if◌then◌else◌, some, none, refl,
  arith, ltb,
}
use cubik_os.Machine.{Entry, Machine, Act, ok, fault}
use cubik_os.Macros.{align_up_lem}
use cubik_os.Paging.Tables.{convert_virt_to_phys, is_page_present}
use cubik_os.Paging.Mapping.{IsSeparate}
use cubik_os.Paging.Marks.{kernel_virtual_base}
use cubik_os.Boot.Defs.{Range, BootMem}
use cubik_os.Start.Tables.{Symbols, map_kernel}
use cubik_os.Start.Kernel.{map_kernel-mapped}
use cubik_os.Start.Memory.{Setting, load_map, first_stats}
use cubik_os.Start.Stats.{load_map-IsSmall, IsSmall}

abbrev no_entry : Entry
no_entry = record { present = false; writable = false; usr = false; addr = 0 }

abbrev machine : (ℕ → ℕ → ℕ) → Machine
machine pointers = record {
  store = record { nodes = λ a. none; frames = λ a. none; count = λ k. 0; pf_freelist = 0 };
  pointers = pointers;
  entries = λ t i. no_entry;
  dirs = λ i j. no_entry;
  bytes = λ a. 0;
  memory_allocated = 0;
  pages = 0;
}

abbrev no_alloc : Act ℕ
no_alloc m = fault

abbrev symbols : Symbols
symbols = record {
  pdpts = kernel_virtual_base + 0x110000;
  page_dirs = kernel_virtual_base + 0x111000;
  page_tables = kernel_virtual_base + 0x400000;
  page_marks = kernel_virtual_base + 0x320000;
  kernel_start = kernel_virtual_base + 0x100000;
  kernel_end = kernel_virtual_base + 0x700000;
}

map_kernel-mapped_example :
    (m' : Machine) × (map_kernel no_alloc symbols (machine (λ i j. 0)) ≡ ok tt m')
    × ((addr : ℕ)
        → kernel_virtual_base + 0x100000 ≤ addr
        → addr < kernel_virtual_base + 0x700000
        → (convert_virt_to_phys addr m' ≡ addr - kernel_virtual_base)
          × (is_page_present addr m' ≡ some true))
map_kernel-mapped_example =
    map_kernel-mapped no_alloc symbols (machine (λ i j. 0)) (λ i j. refl) (omega arith)
      (omega arith) (omega arith) (omega arith) (omega arith)

abbrev from_zero : Range
from_zero = record { start = 0; stop = 0x1000000 }

-- One table for each stretch of 2 MiB
abbrev mapped_machine : Machine
mapped_machine = machine (λ i j. 4096 * (i * 512 + j + 1))

mapped_machine-IsSeparate : IsSeparate mapped_machine
mapped_machine-IsSeparate v w kv kw same some_table =
    omega (arith, same, kv.above, kv.below, kw.above, kw.below)

-- Available memory, reserved memory, and available memory again.
abbrev three_ranges : BootMem
three_ranges = record {
  total_size = 0x300000;
  usable = 0x200000;
  map_size = 3;
  entries = λ i. record {
    range = record { start = i * 0x100000; stop = (i + 1) * 0x100000 % 2 ^ 23 };
    type = if i == 1 then 1 else if ltb i 3 then 0 else 1;
  };
}

abbrev setting : Setting
setting = record { alloc = no_alloc; bitmap = 0; fuel = 1; junk = 0 }

three_ranges-IsSmall :
    (i : ℕ) → (three_ranges.entries i).type ≡ 0 → IsSmall (three_ranges.entries i).range
three_ranges-IsSmall i here =
    let small : i < 3 = ground (arith, here) in
    let (exact, le, lt) = align_up_lem 42 22 (i * 0x100000) refl (omega arith) in
    (omega arith, omega arith, omega (arith, le))

load_map-IsSmall_example :
    load_map setting three_ranges mapped_machine
    ≡ ok (record (first_stats 0x300000) { available = 0x200000 }) mapped_machine
load_map-IsSmall_example =
    load_map-IsSmall setting 0 mapped_machine three_ranges refl (λ i e. ground (arith, e))
      three_ranges-IsSmall
