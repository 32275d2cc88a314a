-- ===== src/Acpi/Madt.antt =====
-- The entries of the table of interrupt controllers, and what ACPI_Initialize does at each of them.
use cubik_os.Prelude.{
  ℕ, suc, ◌+◌, ◌%◌, ◌^◌, ◌≤◌, ◌<◌, ◌≡◌, refl, ◌==◌, ltb, if◌then◌else◌, List, [], ◌∷◌, length,
  get_or, update, u8, u64, arith, ◌∙◌, if_true, Bool-cases, inl, inr, true, false,
}
use cubik_os.Bytes.{Bytes, load}
use cubik_os.Acpi.Defs.{Acpi, done, note_iso, note_processor, note_entry, walk_madt}

-- The entries that the table can have, with what the walk reads of them.
pub data Controller : Type 0 where
  local_apic : ℕ → ℕ → Controller
  io_apic : ℕ → ℕ → Controller
  source_override : Controller
  other_entry : ℕ → Controller

-- The entry at `at`.
abbrev pub IsEntry : Bytes → ℕ → Controller → Type 0
IsEntry m at (local_apic id flags) = (m at ≡ 0) × (m (at + 3) ≡ id) × (load 4 (at + 4) m ≡ flags)
IsEntry m at (io_apic address first) =
    (m at ≡ 1) × (load 4 (at + 4) m ≡ address) × (load 4 (at + 8) m ≡ first)
IsEntry m at source_override = m at ≡ 2
IsEntry m at (other_entry type) = (m at ≡ type) × (2 < type)

-- The entries `es` from `at` on, the last of which ends at `stop` or behind it.
abbrev pub IsTable : Bytes → ℕ → ℕ → List Controller → Type 0
IsTable m at stop [] = stop ≤ at
IsTable m at stop (e ∷ es) =
    (at < stop) × (IsEntry m at e) × IsTable m (u64 (at + m (at + 1))) stop es

-- The processors that are enabled or can be, but the one with the number 0.
abbrev pub usable : List Controller → List ℕ
usable [] = []
usable (local_apic id flags ∷ es) =
    if flags % 4 == 0 then usable es else if id == 0 then usable es else id ∷ usable es
usable (io_apic address first ∷ es) = usable es
usable (source_override ∷ es) = usable es
usable (other_entry type ∷ es) = usable es

-- How many entries are of the type 1 or 2.
abbrev pub sources : List Controller → ℕ
sources [] = 0
sources (local_apic id flags ∷ es) = sources es
sources (io_apic address first ∷ es) = suc (sources es)
sources (source_override ∷ es) = suc (sources es)
sources (other_entry type ∷ es) = sources es

-- The address of the last I/O APIC whose interrupts start at 0.
abbrev pub base : List Controller → ℕ → ℕ
base [] old = old
base (local_apic id flags ∷ es) old = base es old
base (io_apic address first ∷ es) old = base es (if first == 0 then address else old)
base (source_override ∷ es) old = base es old
base (other_entry type ∷ es) old = base es old

-- What a walk over the entries `es` has done.
pub record Walked (acpi after : Acpi) (es : List Controller) : Type 0 where
  pub count : after.processor_count ≡ acpi.processor_count + length (usable es)
  pub processors :
      (i : ℕ)
      → i < length (usable es)
      → after.processors (acpi.processor_count + i) ≡ get_or (usable es) i 0
  pub earlier : (i : ℕ) → i < acpi.processor_count → after.processors i ≡ acpi.processors i
  pub isos : after.iso_amount ≡ u8 (acpi.iso_amount + sources es)
  pub io_apic : after.io_apic_base ≡ base es acpi.io_apic_base

pub iso_amount-word : (at : ℕ) (acpi : Acpi) → (note_iso at acpi).iso_amount < 2 ^ 8
unfolding note_iso
iso_amount-word at acpi = omega arith

-- One round, with what it leaves.
module _ (n at stop : ℕ) (m : Bytes) (acpi : Acpi) (inside : at < stop) where
  pub walk_madt-next :
      (next : Acpi)
      → note_entry at m acpi ≡ done next
      → walk_madt (suc n) at stop m acpi ≡ walk_madt n (u64 (at + m (at + 1))) stop m next
  unfolding walk_madt
  walk_madt-next next run = if_true (ltb at stop) _ _ (ground (arith, inside)) ∙ rw run refl

module _ (at : ℕ) (m : Bytes) (acpi : Acpi) where
  pub note_entry-io :
      (address first : ℕ)
      → IsEntry m at (io_apic address first)
      → note_entry at m acpi
        ≡ done (
            note_iso at
              (record acpi { io_apic_base = if first == 0 then address else acpi.io_apic_base }))
  unfolding note_entry
  note_entry-io address first (type, here, starts) = elim (Bool-cases (first == 0)) [
    | inl zero_first ↦ rw (type, here, starts, zero_first) refl
    | inr later ↦ rw (type, here, starts, later) refl
  ]

  pub note_entry-iso : IsEntry m at source_override → note_entry at m acpi ≡ done (note_iso at acpi)
  unfolding note_entry
  note_entry-iso type = rw type refl

  pub note_entry-other :
      (type : ℕ) → IsEntry m at (other_entry type) → note_entry at m acpi ≡ done acpi
  unfolding note_entry
  note_entry-other type (here, more) = ground (arith, here, more)

  pub note_entry-skipped :
      (id flags : ℕ)
      → IsEntry m at (local_apic id flags)
      → (flags % 4 == 0) ≡ true
      → note_entry at m acpi ≡ done acpi
  unfolding note_entry
  note_entry-skipped id flags (type, here, set) skip = rw (type, set, skip) refl

  pub note_entry-first :
      (id flags : ℕ)
      → IsEntry m at (local_apic id flags)
      → (flags % 4 == 0) ≡ false
      → (id == 0) ≡ true
      → note_entry at m acpi ≡ done acpi
  unfolding note_entry
  note_entry-first id flags (type, here, set) keep zero_id =
      rw (type, set, keep, here, zero_id) refl

  pub note_entry-usable :
      (id flags : ℕ)
      → IsEntry m at (local_apic id flags)
      → (flags % 4 == 0) ≡ false
      → (id == 0) ≡ false
      → acpi.processor_count < 256
      → note_entry at m acpi
        ≡ done (record acpi {
          processors = update acpi.processors acpi.processor_count id;
          processor_count = acpi.processor_count + 1;
        })
  unfolding note_entry note_processor
  note_entry-usable id flags (type, here, set) keep some_id room =
      let fits : ltb acpi.processor_count 256 ≡ true = ground (arith, room) in
      rw (type, set, keep, here, some_id, fits) refl
