-- ===== src/Boot/Map.antt =====
-- The loader's memory map in the kernel's array.
use cubik_os.Prelude.{
  ℕ, suc, ◌+◌, ◌-◌, ◌^◌, ◌≤◌, ◌<◌, ◌≡◌, refl, ◌==◌, ltb, if◌then◌else◌, List, [], ◌∷◌, ◌++◌,
  fun_ext, dec_lt, ap, ◌∙◌, map, sym, ◌⊎◌, inl, inr, length, get_or, update, u64, arith,
}
use cubik_os.Boot.Defs.{
  MapEntry, BootMem, MmapEntry, memory_map_limit, parsed, overrun, map_entry, parse_entry,
  parse_entries,
}

-- The sizes of all entries, and of those that the loader says are usable.
abbrev pub total : List MmapEntry → ℕ
total [] = 0
total (e ∷ es) = e.length + total es

abbrev pub usable : List MmapEntry → ℕ
usable [] = 0
usable (e ∷ es) = (if e.type == 1 then e.length else 0) + usable es

-- The array `old` with the entries `es` from index `k` on.
abbrev pub placed : List MmapEntry → ℕ → (ℕ → MapEntry) → ℕ → MapEntry
placed es k old i = if ltb i k then old i else get_or (map map_entry es) (i - k) (old i)

-- `mem` with the entries `es` behind those that it has.
abbrev pub extended : BootMem → List MmapEntry → BootMem
extended mem es = record {
  total_size = u64 (mem.total_size + total es);
  usable = u64 (mem.usable + usable es);
  map_size = mem.map_size + length es;
  entries = placed es mem.map_size mem.entries;
}

-- Each base is a word of 64 bits.
abbrev pub IsMap : List MmapEntry → Type 0
IsMap [] = Unit
IsMap (e ∷ es) = (e.base < 2 ^ 64) × IsMap es

placed-none : (k : ℕ) (old : ℕ → MapEntry) → placed [] k old ≡ old
placed-none k old = fun_ext (λ i. ground arith)

order : (i k : ℕ) → (i < k) ⊎ ((i ≡ k) ⊎ (k < i))
order i k = elim (dec_lt i k) [
  | yes lt ↦ inl lt
  | no ge ↦ elim (dec_lt k i) [ yes gt ↦ inr (inr gt) | no le ↦ inr (inl (omega arith)) ]
]

placed-step :
    (e : MmapEntry) (es : List MmapEntry) (k : ℕ) (old : ℕ → MapEntry)
    → placed es (k + 1) (update old k (map_entry e)) ≡ placed (e ∷ es) k old
placed-step e es k old = fun_ext (λ i. at i)
  where
    at : (i : ℕ) → placed es (k + 1) (update old k (map_entry e)) i ≡ placed (e ∷ es) k old i
    at i = elim (order i k) [
      | inl lt ↦ ground (arith, lt)
      | inr (inl same) ↦ let zero_gap : i - k ≡ 0 = omega arith in rw zero_gap (ground arith)
      | inr (inr gt) ↦ let gap : i - k ≡ suc (i - (k + 1)) = omega arith in rw gap (ground arith)
    ]

BootMem-eq :
    {a b : BootMem}
    → a.total_size ≡ b.total_size
    → a.usable ≡ b.usable
    → a.map_size ≡ b.map_size
    → a.entries ≡ b.entries
    → a ≡ b
BootMem-eq total usable size entries i = record {
  total_size = total i;
  usable = usable i;
  map_size = size i;
  entries = entries i;
}

-- What the round does for an entry, as a state.
abbrev appended : MmapEntry → BootMem → BootMem
appended e mem = record {
  total_size = u64 (mem.total_size + e.length);
  usable = if e.type == 1 then u64 (mem.usable + e.length) else mem.usable;
  map_size = mem.map_size + 1;
  entries = update mem.entries mem.map_size (map_entry e);
}

extended-step :
    (e : MmapEntry) (mem : BootMem) (es : List MmapEntry)
    → extended (appended e mem) es ≡ extended mem (e ∷ es)
extended-step e mem es =
    BootMem-eq (omega arith) (ground arith) (omega arith)
      (placed-step e es mem.map_size mem.entries)

pub extended-none :
    (mem : BootMem) → mem.total_size < 2 ^ 64 → mem.usable < 2 ^ 64 → extended mem [] ≡ mem
extended-none mem total_word usable_word =
    BootMem-eq (omega arith) (omega arith) (omega arith) (placed-none mem.map_size mem.entries)

pub extended-append :
    (xs ys : List MmapEntry) (mem : BootMem)
    → mem.total_size < 2 ^ 64
    → mem.usable < 2 ^ 64
    → extended (extended mem xs) ys ≡ extended mem (xs ++ ys)
extended-append [] ys mem total_word usable_word =
    ap (λ m. extended m ys) (extended-none mem total_word usable_word)
extended-append (x ∷ xs) ys mem total_word usable_word =
    ap (λ m. extended m ys) (sym (extended-step x mem xs))
    ∙ extended-append xs ys (appended x mem) (omega arith) (ground arith)
    ∙ extended-step x mem (xs ++ ys)

-- A round appends one entry, or finds the array full.
parse_entry-room :
    (e : MmapEntry) (mem : BootMem)
    → e.base < 2 ^ 64
    → mem.map_size < memory_map_limit
    → parse_entry e mem ≡ parsed (appended e mem)
unfolding parse_entry
parse_entry-room e mem word room = ground arith

parse_entry-full :
    (e : MmapEntry) (mem : BootMem)
    → e.base < 2 ^ 64
    → memory_map_limit ≤ mem.map_size
    → parse_entry e mem ≡ overrun
unfolding parse_entry
parse_entry-full e mem word full = ground arith

-- The test for an address that is too large never holds, and a map that fits is taken over whole.
pub parse_entries_lem :
    (es : List MmapEntry) (mem : BootMem)
    → IsMap es
    → mem.total_size < 2 ^ 64
    → mem.usable < 2 ^ 64
    → mem.map_size + length es ≤ memory_map_limit
    → parse_entries es mem ≡ parsed (extended mem es)
unfolding parse_entries
parse_entries_lem [] mem is_map total_word usable_word room =
    ap parsed (sym (extended-none mem total_word usable_word))
parse_entries_lem (e ∷ es) mem (word, is_map) total_word usable_word room =
    rw (parse_entries, parse_entry-room e mem word (omega arith))
      (parse_entries_lem es (appended e mem) is_map (omega arith) (ground arith) (omega arith)
        ∙ ap parsed (extended-step e mem es))

pub parse_entries-overrun :
    (es : List MmapEntry) (mem : BootMem)
    → IsMap es
    → mem.map_size ≤ memory_map_limit
    → memory_map_limit < mem.map_size + length es
    → parse_entries es mem ≡ overrun
unfolding parse_entries
parse_entries-overrun [] mem is_map le gt = absurd (omega arith)
parse_entries-overrun (e ∷ es) mem (word, is_map) le gt =
    elim (dec_lt mem.map_size memory_map_limit) [
      | yes lt ↦
          rw (parse_entries, parse_entry-room e mem word lt)
            (parse_entries-overrun es _ is_map (omega arith) (omega arith))
      | no ge ↦ rw (parse_entries, parse_entry-full e mem word (omega arith)) refl
    ]
