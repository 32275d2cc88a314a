-- ===== src/Start/Stats.antt =====
-- The statistics that MemoryInitialize keeps while it goes through the memory map.
use cubik_os.Prelude.{
  ℕ, zero, suc, ◌+◌, ◌*◌, ◌^◌, ◌≤◌, ◌<◌, ◌≡◌, ◌≢◌, refl, true, false, ◌==◌, if◌then◌else◌, u64,
  arith, ◌∙◌, ap, sym, if_true, if_false, Bool-cases, inl, inr,
}
use cubik_os.Macros.{align_up}
use cubik_os.Machine.{Machine, Act, ok, pure}
use cubik_os.Page.Size.{page_max_size}
use cubik_os.Boot.Defs.{Range, MapEntry, BootMem}
use cubik_os.Start.Zones.{pm_load_zone_range}
use cubik_os.Start.Ranges.{pm_load_zone_range-small}
use cubik_os.Start.Memory.{
  MemStats, size_of, Setting, load_entry, load_type, load_types, load_map, first_stats,
}

-- Available memory that PM_LoadZoneRange finds too small.
abbrev pub IsSmall : Range → Type 0
IsSmall range =
    (range.start + page_max_size ≤ 2 ^ 64)
    × (range.stop < 2 ^ 64)
    × (range.stop < align_up range.start page_max_size + 2 * page_max_size)

-- The sizes of the entries of type 0 that the pass for `type` meets, `n` of them from `idx` on.
abbrev gain : ℕ → MapEntry → ℕ
gain type entry =
    if entry.type == type then (if entry.type == 0 then size_of entry.range else 0) else 0

abbrev pub gained : BootMem → ℕ → ℕ → ℕ → ℕ
gained mem type zero idx = 0
gained mem type (suc n) idx = gain type (mem.entries idx) + gained mem type n (idx + 1)

gained-zero : (mem : BootMem) (type n idx : ℕ) → type ≢ 0 → gained mem type n idx ≡ 0
gained-zero mem type zero idx other = refl
gained-zero mem type (suc n) idx other =
    ground (arith, gained-zero mem type n (idx + 1) other, other)

abbrev with_available : MemStats → ℕ → MemStats
with_available stats n = record stats { available = u64 (stats.available + n) }

module _ (setting : Setting) (fuel : ℕ) (some_fuel : setting.fuel ≡ suc fuel) (m : Machine) where
  load-IsSmall :
      (range : Range)
      → IsSmall range
      → pm_load_zone_range setting.alloc setting.bitmap setting.fuel range m ≡ ok tt m
  load-IsSmall range (start, stop, short) =
      ap (λ n. pm_load_zone_range setting.alloc setting.bitmap n range m) some_fuel
      ∙ pm_load_zone_range-small setting.alloc setting.bitmap fuel range m start stop short

  available-same : (stats : MemStats) → stats.available < 2 ^ 64 → with_available stats 0 ≡ stats
  available-same stats word =
      let e : u64 (stats.available + 0) ≡ stats.available = omega arith in
      ap (λ a. record stats { available = a }) e

  load_entry-available :
      (entry : MapEntry) (stats : MemStats)
      → (entry.type == 0) ≡ true
      → IsSmall entry.range
      → load_entry setting entry stats m ≡ ok (with_available stats (size_of entry.range)) m
  unfolding load_entry
  load_entry-available entry stats here small =
      rw (load_entry, here, load-IsSmall entry.range small) refl

  load_entry-other :
      (entry : MapEntry) (stats : MemStats)
      → (entry.type == 0) ≡ false
      → (entry.type == 5) ≡ false
      → load_entry setting entry stats m ≡ ok stats m
  unfolding load_entry
  load_entry-other entry stats away kernel = rw (load_entry, away, kernel) refl

  load_entry-IsSmall :
      (entry : MapEntry) (stats : MemStats)
      → entry.type ≢ 5
      → (entry.type ≡ 0 → IsSmall entry.range)
      → stats.available < 2 ^ 64
      → load_entry setting entry stats m
        ≡ ok (with_available stats (if entry.type == 0 then size_of entry.range else 0)) m
  load_entry-IsSmall entry stats kernel small word = elim (Bool-cases (entry.type == 0)) [
    | inl here ↦
        load_entry-available entry stats here (small (ground arith))
        ∙ ap (λ n. ok (with_available stats n) m) (sym (if_true (entry.type == 0) _ 0 here))
    | inr away ↦
        load_entry-other entry stats away (ground (arith, kernel))
        ∙ ap (λ s. ok s m) (sym (available-same stats word))
        ∙ ap (λ n. ok (with_available stats n) m) (sym (if_false (entry.type == 0) _ 0 away))
  ]

  -- One round of a pass.
  round :
      (entry : MapEntry) (type : ℕ) (stats : MemStats)
      → entry.type ≢ 5
      → (entry.type ≡ 0 → IsSmall entry.range)
      → stats.available < 2 ^ 64
      → (if entry.type == type then load_entry setting entry stats else pure stats) m
        ≡ ok (with_available stats (gain type entry)) m
  round entry type stats kernel small word = elim (Bool-cases (entry.type == type)) [
    | inl here ↦
        ap (λ (act : Act MemStats). act m) (if_true (entry.type == type) _ _ here)
        ∙ load_entry-IsSmall entry stats kernel small word
        ∙ ap (λ n. ok (with_available stats n) m) (sym (if_true (entry.type == type) _ 0 here))
    | inr away ↦
        ap (λ (act : Act MemStats). act m) (if_false (entry.type == type) _ _ away)
        ∙ ap (λ s. ok s m) (sym (available-same stats word))
        ∙ ap (λ n. ok (with_available stats n) m) (sym (if_false (entry.type == type) _ 0 away))
  ]

  module _ (mem : BootMem) (no_kernel : (i : ℕ) → (mem.entries i).type ≢ 5)
      (small : (i : ℕ) → (mem.entries i).type ≡ 0 → IsSmall (mem.entries i).range) where
    load_type-IsSmall :
        (type n idx : ℕ) (stats : MemStats)
        → stats.available < 2 ^ 64
        → load_type setting mem type n idx stats m
          ≡ ok (with_available stats (gained mem type n idx)) m
    unfolding load_type
    load_type-IsSmall type zero idx stats word = ap (λ s. ok s m) (sym (available-same stats word))
    load_type-IsSmall type (suc n) idx stats word =
        let entry = mem.entries idx in
        let sum : u64 (u64 (stats.available + gain type entry) + gained mem type n (idx + 1))
            ≡ u64 (stats.available + (gain type entry + gained mem type n (idx + 1))) =
          omega arith in
        rw (round entry type stats (no_kernel idx) (small idx) word) (
          load_type-IsSmall type n (idx + 1) (with_available stats (gain type entry)) (omega arith)
          ∙ ap (λ a. ok (record stats { available = a }) m) sum)

    -- The passes after the first one.
    load_types-IsSmall :
        (n type : ℕ) (stats : MemStats)
        → type ≢ 0
        → stats.available < 2 ^ 64
        → load_types setting mem n type stats m ≡ ok stats m
    unfolding load_types
    load_types-IsSmall zero type stats other word = refl
    load_types-IsSmall (suc n) type stats other word =
        let pass : load_type setting mem type mem.map_size 0 stats m ≡ ok stats m =
          load_type-IsSmall type mem.map_size 0 stats word
          ∙ ap (λ g. ok (with_available stats g) m) (gained-zero mem type mem.map_size 0 other)
          ∙ ap (λ s. ok s m) (available-same stats word) in
        rw pass (load_types-IsSmall n (type + 1) stats (omega arith) word)

-- On a memory map with no entry of the kernel's, each of whose available ranges has less than two
-- whole blocks of 4 MiB, MemoryInitialize's loops load nothing and return; the statistics count the
-- available ranges all the same, each once, though the loops pass over the map six times.
pub load_map-IsSmall :
    (setting : Setting) (fuel : ℕ) (m : Machine) (mem : BootMem)
    → setting.fuel ≡ suc fuel
    → ((i : ℕ) → (mem.entries i).type ≢ 5)
    → ((i : ℕ) → (mem.entries i).type ≡ 0 → IsSmall (mem.entries i).range)
    → load_map setting mem m
      ≡ ok (record (first_stats mem.total_size) { available = u64 (gained mem 0 mem.map_size 0) }) m
unfolding load_map load_types
load_map-IsSmall setting fuel m mem some_fuel no_kernel small =
    let first = first_stats mem.total_size in
    let counted = with_available first (gained mem 0 mem.map_size 0) in
    rw
      (load_type-IsSmall setting fuel some_fuel m mem no_kernel small 0 mem.map_size 0 first
        (omega arith))
      (load_types-IsSmall setting fuel some_fuel m mem no_kernel small 5 1 counted (omega arith)
          (omega arith)
        ∙ ap (λ a. ok (record first { available = a }) m) (omega arith))
