-- ===== src/Paging/Mapping.antt =====
-- MapVirtualAddress over tables that exist, and translation through them.
use cubik_os.Prelude.{
  ℕ, zero, suc, ◌+◌, ◌-◌, ◌*◌, ◌/◌, ◌%◌, ◌^◌, ◌≤◌, ◌<◌, ◌≡◌, refl, ◌≢◌, true, false, ◌==◌, ltb, leb,
  ◌&&◌, if◌then◌else◌, some, update, u64, arith, ◌∙◌,
}
use cubik_os.Machine.{Entry, Machine, Act, ok}
use cubik_os.Paging.Tables.{
  pml4_index, pdpt_index, pdir_index, page_index, has_flag, page_flag_writable, page_flag_user,
  vm_get_page, convert_virt_to_phys, is_page_present, store_entry, map_page, map_virtual_address,
}

-- The numbers of the pages in the kernel's 512 GiB.
pub record IsKernel (v : ℕ) : Type 0 where
  pub above : 2 ^ 52 - 2 ^ 27 ≤ v
  pub below : v < 2 ^ 52

-- The table of page `v`, and its entry.
abbrev pub table_of : Machine → ℕ → ℕ
table_of m v = m.pointers (v / 2 ^ 18 % 512) (v / 2 ^ 9 % 512)

abbrev pub entry_of : Machine → ℕ → Entry
entry_of m v = m.entries (table_of m v) (v % 512)

-- Two pages that are not covered by one table have different tables.
abbrev pub IsSeparate : Machine → Type 0
IsSeparate m =
    (v w : ℕ)
    → IsKernel v
    → IsKernel w
    → table_of m v ≡ table_of m w
    → table_of m v ≢ 0
    → v / 512 ≡ w / 512

-- What MapVirtualAddress writes for the physical page `p`.
abbrev pub entry_for : ℕ → ℕ → Entry
entry_for flags p = record {
  present = true;
  writable = has_flag flags page_flag_writable;
  usr = has_flag flags page_flag_user;
  addr = p;
}

-- The entries after page `v` has been mapped to `p`.
abbrev with_entry : Machine → ℕ → Entry → ℕ → ℕ → Entry
with_entry m v e = update m.entries (table_of m v) (update (m.entries (table_of m v)) (v % 512) e)

map_page-ok :
    (alloc : Act ℕ) (p v flags : ℕ) (m : Machine)
    → IsKernel v
    → p < 2 ^ 36
    → table_of m v ≢ 0
    → map_page alloc (p * 4096) (v * 4096) flags m
      ≡ ok tt (record m { entries = with_entry m v (entry_for flags p) })
unfolding map_page vm_get_page store_entry
map_page-ok alloc p v flags m k small some_table =
    let top : (pml4_index (v * 4096) == 511) ≡ true = ground arith in
    let i : pdpt_index (v * 4096) ≡ v / 2 ^ 18 % 512 = omega arith in
    let j : pdir_index (v * 4096) ≡ v / 2 ^ 9 % 512 = omega arith in
    let at : page_index (v * 4096) ≡ v % 512 = omega arith in
    let phys : p * 4096 / 4096 % 2 ^ 36 ≡ p = omega arith in
    let there : (table_of m v == 0) ≡ false = ground arith in rw (top, i, j, at, phys, there, there)

-- One page changes, and no other.
with_entry-lem :
    (m : Machine) (v w : ℕ) (e : Entry)
    → IsSeparate m
    → IsKernel v
    → IsKernel w
    → table_of m v ≢ 0
    → with_entry m v e (table_of m w) (w % 512) ≡ (if v == w then e else entry_of m w)
with_entry-lem m v w e separate kv kw some_table = ground (arith, separate v w kv kw)

-- After `n` pages from page `v` on have been mapped to the physical pages from `p` on.
pub record Mapped (m : Machine) (p v n flags : ℕ) (alloc : Act ℕ) : Type 0 where
  pub entries : ℕ → ℕ → Entry
  pub run :
      map_virtual_address alloc (p * 4096) (v * 4096) n flags m
      ≡ ok tt (record m { entries = entries })
  pub pages :
      (w : ℕ)
      → IsKernel w
      → entries (table_of m w) (w % 512)
        ≡ (if leb v w && ltb w (v + n) then entry_for flags (p + (w - v)) else entry_of m w)

-- One more page in front of a range.
with_page :
    (alloc : Act ℕ) (n p v flags : ℕ) (m : Machine)
    → IsSeparate m
    → IsKernel v
    → v + n + 1 < 2 ^ 52
    → p + n < 2 ^ 36
    → table_of m v ≢ 0
    → Mapped
        (record m { entries = with_entry m v (entry_for flags p) })
        (p + 1)
        (v + 1)
        n
        flags
        alloc
    → Mapped m p v (suc n) flags alloc
unfolding map_virtual_address
with_page alloc n p v flags m separate kv top small there rest =
    let next_phys : u64 (p * 4096 + 4096) ≡ (p + 1) * 4096 = omega arith in
    let next_virt : u64 (v * 4096 + 4096) ≡ (v + 1) * 4096 = omega arith in
    record {
      entries = rest.entries;
      run =
          rw (map_page-ok alloc p v flags m kv (omega arith) there, next_phys, next_virt) rest.run;
      pages = λ w kw.
          rest.pages w kw
          ∙ (rw (with_entry-lem m v w (entry_for flags p) separate kv kw there)
              (overlay v w n p flags (entry_of m w)));
    }
  where
    overlay :
        (v w n p flags : ℕ) (e : Entry)
        → (if leb (v + 1) w && ltb w (v + 1 + n)
            then entry_for flags (p + 1 + (w - (v + 1)))
            else if v == w
            then entry_for flags p
            else e)
          ≡ (if leb v w && ltb w (v + suc n) then entry_for flags (p + (w - v)) else e)
    overlay v w n p flags e = ground arith

-- MapVirtualAddress maps each page of the range to its frame, with the flags, and leaves every
-- other page of the kernel's address space as it was. The tables of the range exist, no two
-- stretches of 2 MiB share one, and the range does not reach the last page.
pub map_virtual_address-Mapped :
    (alloc : Act ℕ) (n p v flags : ℕ) (m : Machine)
    → IsSeparate m
    → IsKernel v
    → v + n < 2 ^ 52
    → p + n ≤ 2 ^ 36
    → ((w : ℕ) → v ≤ w → w < v + n → table_of m w ≢ 0)
    → Mapped m p v n flags alloc
unfolding map_virtual_address
map_virtual_address-Mapped alloc zero p v flags m separate kv top small tables = record {
  entries = m.entries;
  run = refl;
  pages = λ w kw. ground arith;
}
map_virtual_address-Mapped alloc (suc n) p v flags m separate kv top small tables =
    with_page alloc n p v flags m separate kv (omega arith) (omega arith)
      (tables v (omega arith) (omega arith))
      (map_virtual_address-Mapped alloc n (p + 1) (v + 1) flags
        (record m { entries = with_entry m v (entry_for flags p) }) separate
        (record { above = next kv.above; below = omega arith }) (omega arith) (omega arith)
        (λ w lo hi. tables w (omega arith) (omega arith)))
  where
    next : {a b : ℕ} → a ≤ b → a ≤ b + 1
    next h = omega arith

-- Translation in the mapped range.
pub Mapped-translated :
    (alloc : Act ℕ) (n p v flags : ℕ) (m : Machine)
    → IsKernel v
    → v + n < 2 ^ 52
    → p + n ≤ 2 ^ 36
    → ((w : ℕ) → v ≤ w → w < v + n → table_of m w ≢ 0)
    → (done : Mapped m p v n flags alloc) (i off : ℕ) → i < n
    → off < 4096
    → (convert_virt_to_phys ((v + i) * 4096 + off) (record m { entries = done.entries })
        ≡ (p + i) * 4096 % 2 ^ 36 + off)
      × (is_page_present ((v + i) * 4096 + off) (record m { entries = done.entries }) ≡ some true)
unfolding convert_virt_to_phys is_page_present vm_get_page
Mapped-translated alloc n p v flags m kv top small tables done i off lt in_page =
    let k : IsKernel (v + i) = record { above = above i kv.above; below = omega arith } in
    let page : done.entries (table_of m (v + i)) ((v + i) % 512) ≡ entry_for flags (p + i) =
      done.pages (v + i) k ∙ chosen v i n p flags (entry_of m (v + i)) lt in
    let l4 : (pml4_index ((v + i) * 4096 + off) == 511) ≡ true = ground (arith, k.above, k.below) in
    let l3 : pdpt_index ((v + i) * 4096 + off) ≡ (v + i) / 2 ^ 18 % 512 = omega arith in
    let l2 : pdir_index ((v + i) * 4096 + off) ≡ (v + i) / 2 ^ 9 % 512 = omega arith in
    let l1 : page_index ((v + i) * 4096 + off) ≡ (v + i) % 512 = omega arith in
    let there : (table_of m (v + i) == 0) ≡ false =
      ground (arith, tables (v + i) (omega arith) (omega arith)) in
    (rw (l4, l3, l2, l1, there, page) (omega arith), rw (l4, l3, l2, l1, there, page) refl)
  where
    above : {a v : ℕ} (i : ℕ) → a ≤ v → a ≤ v + i
    above i h = omega arith

    chosen :
        (v i n p flags : ℕ) (e : Entry)
        → i < n
        → (if leb v (v + i) && ltb (v + i) (v + n) then entry_for flags (p + (v + i - v)) else e)
          ≡ entry_for flags (p + i)
    chosen v i n p flags e lt = ground arith

-- After MapVirtualAddress, ConvertVirtToPhys takes each address of a mapped page to the low 36 bits
-- of its frame's address, at the same offset, and IsPagePresent holds of it; nothing but the entries
-- of tables changes. So a frame below 64 GiB is found again, and for one above, the upper bits of
-- its address are lost. The tables of the range exist, no two stretches of 2 MiB share one, and the
-- range does not reach the last page.
pub convert_virt_to_phys-mapped :
    (alloc : Act ℕ) (n p v flags : ℕ) (m : Machine)
    → IsSeparate m
    → IsKernel v
    → v + n < 2 ^ 52
    → p + n ≤ 2 ^ 36
    → ((w : ℕ) → v ≤ w → w < v + n → table_of m w ≢ 0)
    → (entries : ℕ → ℕ → Entry) × (map_virtual_address alloc (p * 4096) (v * 4096) n flags m
        ≡ ok tt (record m { entries = entries }))
      × ((i off : ℕ)
          → i < n
          → off < 4096
          → (convert_virt_to_phys ((v + i) * 4096 + off) (record m { entries = entries })
              ≡ (p + i) * 4096 % 2 ^ 36 + off)
            × (is_page_present ((v + i) * 4096 + off) (record m { entries = entries }) ≡ some true))
convert_virt_to_phys-mapped alloc n p v flags m separate kv top small tables =
    let done = map_virtual_address-Mapped alloc n p v flags m separate kv top small tables in
    (done.entries, done.run, Mapped-translated alloc n p v flags m kv top small tables done)
