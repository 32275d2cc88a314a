-- ===== src/Acpi/Walk.antt =====
-- The walk of ACPI_Initialize over the table of interrupt controllers.
use cubik_os.Prelude.{
  ℕ, zero, suc, ◌+◌, ◌%◌, ◌^◌, ◌≤◌, ◌<◌, ◌≡◌, refl, ◌==◌, ltb, if◌then◌else◌, List, [], ◌∷◌, length,
  get_or, update, u64, arith, ◌∙◌, ap, if_true, if_false, Bool-cases, inl, inr,
}
use cubik_os.Bytes.{Bytes}
use cubik_os.Acpi.Defs.{Acpi, done, spent, note_iso, note_entry, walk_madt}
use cubik_os.Acpi.Madt.{
  Controller, local_apic, io_apic, source_override, other_entry, IsEntry, IsTable, usable, sources,
  base, Walked, walk_madt-next, note_entry-io, note_entry-iso, note_entry-other, note_entry-skipped,
  note_entry-first, note_entry-usable, iso_amount-word,
}

-- One more processor in front.
shifted :
    (id : ℕ) (after old : ℕ → ℕ) (count : ℕ) (ids : List ℕ)
    → ((i : ℕ) → i < count + 1 → after i ≡ update old count id i)
    → ((i : ℕ) → i < length ids → after (count + 1 + i) ≡ get_or ids i 0)
    → (i : ℕ) → i < length (id ∷ ids)
    → after (count + i) ≡ get_or (id ∷ ids) i 0
shifted id after old count ids earlier later zero lt =
    let here : count + 0 ≡ count = omega arith in
    rw here (earlier count (omega arith) ∙ ground arith)
shifted id after old count ids earlier later (suc i) lt =
    let there : count + suc i ≡ count + 1 + i = omega arith in rw there (later i (omega arith))

-- The table is walked to its end, on fuel for its entries.
abbrev pub Walk : ℕ → ℕ → ℕ → Bytes → Acpi → List Controller → Type 0
Walk n at stop m acpi es =
    (after : Acpi) × (walk_madt n at stop m acpi ≡ done after) × Walked acpi after es

module _ (n at stop : ℕ) (m : Bytes) (acpi : Acpi) (es : List Controller) (inside : at < stop) where
  -- An entry that changes nothing.
  Walk-same :
      (e : Controller)
      → note_entry at m acpi ≡ done acpi
      → usable (e ∷ es) ≡ usable es
      → sources (e ∷ es) ≡ sources es
      → base (e ∷ es) acpi.io_apic_base ≡ base es acpi.io_apic_base
      → Walk n (u64 (at + m (at + 1))) stop m acpi es
      → Walk (suc n) at stop m acpi (e ∷ es)
  Walk-same e step same_usable same_sources same_base (after, run, done_rest) = (
    after,
    walk_madt-next n at stop m acpi inside acpi step ∙ run,
    record {
      count = rw same_usable done_rest.count;
      processors = rw same_usable done_rest.processors;
      earlier = done_rest.earlier;
      isos = rw same_sources done_rest.isos;
      io_apic = rw same_base done_rest.io_apic;
    },
  )

  -- An entry that is noted as a source.
  Walk-iso :
      (e : Controller) (io : ℕ)
      → note_entry at m acpi ≡ done (note_iso at (record acpi { io_apic_base = io }))
      → usable (e ∷ es) ≡ usable es
      → sources (e ∷ es) ≡ suc (sources es)
      → base (e ∷ es) acpi.io_apic_base ≡ base es io
      → Walk n (u64 (at + m (at + 1))) stop m (note_iso at (record acpi { io_apic_base = io })) es
      → Walk (suc n) at stop m acpi (e ∷ es)
  unfolding note_iso
  Walk-iso e io step same_usable more same_base (after, run, done_rest) = (
    after,
    walk_madt-next n at stop m acpi inside _ step ∙ run,
    record {
      count = rw same_usable done_rest.count;
      processors = rw same_usable done_rest.processors;
      earlier = done_rest.earlier;
      isos = rw more (omega (arith, done_rest.isos));
      io_apic = rw same_base done_rest.io_apic;
    },
  )

  -- A processor.
  Walk-processor :
      (e : Controller) (id : ℕ)
      → note_entry at m acpi
        ≡ done (record acpi {
          processors = update acpi.processors acpi.processor_count id;
          processor_count = acpi.processor_count + 1;
        })
      → usable (e ∷ es) ≡ id ∷ usable es
      → sources (e ∷ es) ≡ sources es
      → base (e ∷ es) acpi.io_apic_base ≡ base es acpi.io_apic_base
      → Walk n
          (u64 (at + m (at + 1)))
          stop
          m
          (record acpi {
            processors = update acpi.processors acpi.processor_count id;
            processor_count = acpi.processor_count + 1;
          })
          es
      → Walk (suc n) at stop m acpi (e ∷ es)
  Walk-processor e id step more same_sources same_base (after, run, done_rest) = (
    after,
    walk_madt-next n at stop m acpi inside _ step ∙ run,
    record {
      count = rw more (omega (arith, done_rest.count));
      processors = rw more (
          shifted id after.processors acpi.processors acpi.processor_count (usable es)
            done_rest.earlier done_rest.processors);
      earlier = λ i lt. ground (arith, done_rest.earlier i (omega arith), lt);
      isos = rw same_sources done_rest.isos;
      io_apic = rw same_base done_rest.io_apic;
    },
  )

-- On a table of interrupt controllers and fuel for its entries, the walk ends, and has noted the
-- numbers of the usable processors in their order behind those that were known, where there is room
-- for all in the array of 256, and the last I/O APIC for the legacy interrupts. It counts as
-- sources, modulo 256, both the source overrides and the I/O APICs, since the case of the latter
-- runs into the next one.
pub walk_madt-Walked :
    (es : List Controller) (n at stop : ℕ) (m : Bytes) (acpi : Acpi)
    → IsTable m at stop es
    → length es < n
    → acpi.iso_amount < 2 ^ 8
    → acpi.processor_count + length (usable es) ≤ 256
    → (after : Acpi) × (walk_madt n at stop m acpi ≡ done after) × Walked acpi after es
unfolding walk_madt note_iso
walk_madt-Walked es zero at stop m acpi table fuel word room = absurd (omega arith)
walk_madt-Walked [] (suc n) at stop m acpi table fuel word room = (
  acpi,
  if_false (ltb at stop) _ _ (ground (arith, table)),
  record {
    count = omega arith;
    processors = λ i lt. absurd (omega arith);
    earlier = λ i lt. refl;
    isos = omega arith;
    io_apic = refl;
  },
)
walk_madt-Walked (other_entry type ∷ es) (suc n) at stop m acpi (inside, here, rest) fuel word
      room =
    Walk-same n at stop m acpi es inside (other_entry type) (note_entry-other at m acpi type here)
      refl refl refl (walk_madt-Walked es n _ stop m acpi rest (omega arith) word room)
walk_madt-Walked (source_override ∷ es) (suc n) at stop m acpi (inside, here, rest) fuel word room =
    Walk-iso n at stop m acpi es inside source_override acpi.io_apic_base
      (note_entry-iso at m acpi here) refl refl refl
      (walk_madt-Walked es n _ stop m _ rest (omega arith) (iso_amount-word at acpi) room)
walk_madt-Walked (io_apic address first ∷ es) (suc n) at stop m acpi (inside, here, rest) fuel word
      room =
    Walk-iso n at stop m acpi es inside (io_apic address first)
      (if first == 0 then address else acpi.io_apic_base)
      (note_entry-io at m acpi address first here) refl refl refl
      (walk_madt-Walked es n _ stop m _ rest (omega arith) (iso_amount-word at acpi) room)
walk_madt-Walked (local_apic id flags ∷ es) (suc n) at stop m acpi (inside, here, rest) fuel word
      room =
    elim (Bool-cases (flags % 4 == 0)) [
      | inl skip ↦
          let none_more : usable (local_apic id flags ∷ es) ≡ usable es =
            if_true (flags % 4 == 0) _ _ skip in
          Walk-same n at stop m acpi es inside (local_apic id flags)
            (note_entry-skipped at m acpi id flags here skip) none_more refl refl
            (walk_madt-Walked es n _ stop m acpi rest (omega arith) word
              (omega (arith, ap length none_more)))
      | inr keep ↦ elim (Bool-cases (id == 0)) [
        | inl boot ↦
            let none_more : usable (local_apic id flags ∷ es) ≡ usable es =
              if_false (flags % 4 == 0) _ _ keep ∙ if_true (id == 0) _ _ boot in
            Walk-same n at stop m acpi es inside (local_apic id flags)
              (note_entry-first at m acpi id flags here keep boot) none_more refl refl
              (walk_madt-Walked es n _ stop m acpi rest (omega arith) word
                (omega (arith, ap length none_more)))
        | inr some_id ↦
            let one_more : usable (local_apic id flags ∷ es) ≡ id ∷ usable es =
              if_false (flags % 4 == 0) _ _ keep ∙ if_false (id == 0) _ _ some_id in
            Walk-processor n at stop m acpi es inside (local_apic id flags) id
              (note_entry-usable at m acpi id flags here keep some_id
                (omega (arith, ap length one_more)))
              one_more refl refl
              (walk_madt-Walked es n _ stop m _ rest (omega arith) word
                (omega (arith, ap length one_more)))
      ]
    ]

-- A table with an entry whose length field is 0, and whose type is none of those that the walk
-- notes, is never walked to its end, on whatever fuel.
pub walk_madt-stuck :
    (n at stop type : ℕ) (m : Bytes) (acpi : Acpi)
    → at < stop
    → at < 2 ^ 64
    → IsEntry m at (other_entry type)
    → m (at + 1) ≡ 0
    → walk_madt n at stop m acpi ≡ spent
unfolding walk_madt
walk_madt-stuck zero at stop type m acpi inside word here empty = refl
walk_madt-stuck (suc n) at stop type m acpi inside word here empty =
    let same : u64 (at + m (at + 1)) ≡ at = omega (arith, empty) in
    walk_madt-next n at stop m acpi inside acpi (note_entry-other at m acpi type here)
    ∙ ap (λ a. walk_madt n a stop m acpi) same
    ∙ walk_madt-stuck n at stop type m acpi inside word here empty
