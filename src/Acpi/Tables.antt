-- ===== src/Acpi/Tables.antt =====
-- The search of ACPI_FindTable.
use cubik_os.Prelude.{
  ℕ, zero, suc, ◌+◌, ◌≤◌, ◌<◌, ◌≡◌, ◌≢◌, refl, ◌⊎◌, inl, inr, ◌==◌, Bool, true, if◌then◌else◌,
  Option, none, some, arith, ◌∙◌, if_true, if_false, Bool-cases,
}
use cubik_os.Bytes.{Bytes}
use cubik_os.Strings.Defs.{memcmp}
use cubik_os.Acpi.Defs.{Acpi, Literals, header_of, entries_of, find_entry, find_table}

module _ (acpi : Acpi) (str : ℕ) (m : Bytes) where
  -- The entry `i` has the signature at `str`.
  abbrev pub is_match : ℕ → Bool
  is_match i = memcmp (header_of acpi i m) str 4 m == 0

  -- How many of the `n` entries from `i` on have it.
  abbrev pub matches : ℕ → ℕ → ℕ
  matches zero i = 0
  matches (suc n) i = (if is_match i then 1 else 0) + matches n (i + 1)

  -- The entry `j` is found from `i` on, where `k` matches were counted.
  pub record Found (index n i k j : ℕ) (result : Option ℕ) : Type 0 where
    pub rounds : ℕ
    pub place : j ≡ i + rounds
    pub inside : rounds < n
    pub result_of : result ≡ some (header_of acpi j m)
    pub matching : is_match j ≡ true
    pub before : k + matches rounds i ≡ index

  abbrev pub Search : ℕ → ℕ → ℕ → ℕ → Option ℕ → Type 0
  Search index n i k result =
      ((result ≡ none) × (k + matches n i ≤ index)) ⊎ ((j : ℕ) × Found index n i k j result)

  -- One entry more in front, which is none of the matches to count, or is one.
  Search-next :
      (index n i k k' : ℕ) (result : Option ℕ)
      → k' ≡ k + (if is_match i then 1 else 0)
      → Search index n (i + 1) k' result
      → Search index (suc n) i k result
  Search-next index n i k k' result step (inl (absent, few)) = inl (absent, omega arith)
  Search-next index n i k k' result step (inr (j, found)) = inr (
    j,
    record {
      rounds = suc found.rounds;
      place = omega (arith, found.place);
      inside = omega (arith, found.inside);
      result_of = found.result_of;
      matching = found.matching;
      before = omega (arith, found.before);
    },
  )

  find_entry-Search :
      (index n i k : ℕ) → k ≤ index → Search index n i k (find_entry acpi str index n i k m)
  unfolding find_entry
  find_entry-Search index zero i k le = inl (refl, omega arith)
  find_entry-Search index (suc n) i k le = elim (Bool-cases (is_match i)) [
    | inl here ↦ elim (Bool-cases (k == index)) [
      | inl last ↦ inr (
        i,
        record {
          rounds = 0;
          place = omega arith;
          inside = omega arith;
          result_of = if_true (is_match i) _ _ here ∙ if_true (k == index) _ _ last;
          matching = here;
          before = ground arith;
        },
      )
      | inr more ↦
          let open_run : find_entry acpi str index (suc n) i k m
              ≡ find_entry acpi str index n (i + 1) (k + 1) m =
            if_true (is_match i) _ _ here ∙ if_false (k == index) _ _ more in
          let one : k + 1 ≡ k + (if is_match i then 1 else 0) = rw here refl in
          rw open_run (
            Search-next index n i k (k + 1) _ one
              (find_entry-Search index n (i + 1) (k + 1) (ground (arith, more))))
    ]
    | inr other ↦
        let open_run : find_entry acpi str index (suc n) i k m
            ≡ find_entry acpi str index n (i + 1) k m =
          if_false (is_match i) _ _ other in
        let none_more : k ≡ k + (if is_match i then 1 else 0) = rw other (omega arith) in
        rw open_run (Search-next index n i k k _ none_more (find_entry-Search index n (i + 1) k le))
  ]

-- Where the root pointer is known and the signature is not "DSDT", ACPI_FindTable returns the entry
-- that has the signature and `index` entries with it before; and where there are no more than
-- `index` entries with it, it returns no value at all.
pub find_table-Search :
    (literals : Literals) (acpi : Acpi) (str index : ℕ) (m : Bytes)
    → acpi.desc ≢ 0
    → memcmp literals.dsdt str 4 m ≢ 0
    → Search acpi str m index (entries_of acpi m) 0 0 (find_table literals acpi str index m)
unfolding find_table
find_table-Search literals acpi str index m known other =
    let open_run : find_table literals acpi str index m
        ≡ find_entry acpi str index (entries_of acpi m) 0 0 m =
      if_false (acpi.desc == 0) _ _ (ground (arith, known))
      ∙ if_false (memcmp literals.dsdt str 4 m == 0) _ _ (ground (arith, other)) in
    rw open_run (find_entry-Search acpi str m index (entries_of acpi m) 0 0 (omega arith))
