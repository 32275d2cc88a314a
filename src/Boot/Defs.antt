-- ===== src/Boot/Defs.antt =====
-- Kernel/include/boot/bootinfo.h, Kernel/include/utils/range.h, and ParseStivale2Info of
-- Kernel/arch/x86_64/bootx64.h.
use cubik_os.Prelude.{
  ℕ, zero, suc, ◌+◌, ◌-◌, ◌^◌, ◌||◌, ◌==◌, ltb, if◌then◌else◌, List, [], ◌∷◌, update, u64,
}

-- `range_t`
pub record Range : Type 0 where
  pub start : ℕ
  pub stop : ℕ

-- `struct memory_map_entry`
pub record MapEntry : Type 0 where
  pub range : Range
  pub type : ℕ

-- `struct boot_mem`, whose array has `memory_map_limit` entries.
pub record BootMem : Type 0 where
  pub total_size : ℕ
  pub usable : ℕ
  pub map_size : ℕ
  pub entries : ℕ → MapEntry

abbrev pub memory_map_limit : ℕ
memory_map_limit = 64

pub record BootGraphic : Type 0 where
  pub width : ℕ
  pub height : ℕ
  pub buffer_address : ℕ
  pub pitch : ℕ
  pub bytes_per_pixel : ℕ

pub record BootInfo : Type 0 where
  pub check : ℕ
  pub mem : BootMem
  pub graphic : BootGraphic

pub record MmapEntry : Type 0 where
  pub base : ℕ
  pub length : ℕ
  pub type : ℕ

-- A tag of the loader, with what the casts to the memory map and to the framebuffer read there.
pub record Tag : Type 0 where
  pub identifier : ℕ
  pub next : ℕ
  pub memmap : List MmapEntry
  pub framebuffer : BootGraphic

abbrev pub memmap_id : ℕ
memmap_id = 0x2187f79e8612de07

abbrev pub framebuffer_id : ℕ
framebuffer_id = 0x506461d2950408fa

-- `overrun` is a write behind an array, `spent` a lack of fuel.
pub data Parsed (A : Type 0) : Type 0 where
  parsed : A → Parsed A
  overrun spent : Parsed A

-- The kernel's type of memory for the loader's.
unfoldable pub entry_type : ℕ → ℕ
entry_type type =
    if type == 1
    then 0
    else if type == 0x1001
    then 5
    else if type == 3
    then 2
    else if type == 4
    then 3
    else if type == 5
    then 4
    else 1

unfoldable pub map_entry : MmapEntry → MapEntry
map_entry from = record {
  range = record { start = from.base; stop = u64 (from.base + from.length) };
  type = entry_type from.type;
}

-- One round of the loop over the memory map.
unfoldable pub parse_entry : MmapEntry → BootMem → Parsed BootMem
parse_entry from mem =
    if ltb (2 ^ 64 - 1) from.base || ltb (2 ^ 64 - 1) (u64 (from.base + from.length))
    then parsed mem
    else if ltb mem.map_size memory_map_limit
    then parsed (record {
      total_size = u64 (mem.total_size + from.length);
      usable = if from.type == 1 then u64 (mem.usable + from.length) else mem.usable;
      map_size = mem.map_size + 1;
      entries = update mem.entries mem.map_size (map_entry from);
    })
    else overrun

unfoldable pub parse_entries : List MmapEntry → BootMem → Parsed BootMem
parse_entries [] mem = parsed mem
parse_entries (from ∷ rest) mem = elim (parse_entry from mem) [
  | parsed next ↦ parse_entries rest next
  | overrun ↦ overrun
  | spent ↦ spent
]

abbrev pub with_mem : BootInfo → Parsed BootMem → Parsed BootInfo
with_mem info (parsed mem) = parsed (record info { mem = mem })
with_mem info overrun = overrun
with_mem info spent = spent

-- `switch (tag->identifier)`; the other tags are ignored.
unfoldable pub parse_tag : Tag → BootInfo → Parsed BootInfo
parse_tag tag info =
    if tag.identifier == memmap_id
    then with_mem info (parse_entries tag.memmap info.mem)
    else if tag.identifier == framebuffer_id
    then parsed (record info { graphic = tag.framebuffer })
    else parsed info

-- `while (tag)`, on fuel; `tags` is the memory that holds them.
unfoldable pub parse_tags : ℕ → (ℕ → Tag) → ℕ → BootInfo → Parsed BootInfo
parse_tags zero tags tag info = spent
parse_tags (suc n) tags tag info =
    if tag == 0 then parsed info else elim (parse_tag (tags tag) info) [
      | parsed next ↦ parse_tags n tags (tags tag).next next
      | overrun ↦ overrun
      | spent ↦ spent
    ]

abbrev pub boot_check : ℕ
boot_check = 0xDEADC0DE

abbrev pub checked : Parsed BootInfo → Parsed BootInfo
checked (parsed info) = parsed (record info { check = boot_check })
checked overrun = overrun
checked spent = spent

unfoldable pub parse_stivale2_info : ℕ → (ℕ → Tag) → ℕ → BootInfo → Parsed BootInfo
parse_stivale2_info fuel tags first info = checked (parse_tags fuel tags first info)
