-- ===== src/Acpi/Smbios.antt =====
-- Kernel/arch/x86_64/smbios.c.
use cubik_os.Prelude.{
  ℕ, zero, suc, ◌+◌, ◌*◌, ◌%◌, ◌^◌, ◌<◌, ◌≡◌, ◌≢◌, refl, Bool, true, false, ◌==◌, ◌&&◌, not,
  if◌then◌else◌, Option, none, some, u8, arith, ◌∙◌, ap, sym, subst,
}
use cubik_os.Bytes.{Bytes}
use cubik_os.Strings.Defs.{memcmp}
use cubik_os.Paging.Tables.{kernel_io_virtual_base}

-- The loop of __smbios_Checksum, with `n` bytes left.
unfoldable pub add_bytes : ℕ → ℕ → ℕ → Bytes → ℕ
add_bytes zero address checksum m = checksum
add_bytes (suc n) address checksum m = add_bytes n (address + 1) (u8 (checksum + m address)) m

-- __smbios_Checksum
unfoldable pub smbios_checksum : ℕ → Bytes → Bool
smbios_checksum address m = add_bytes (m (address + 5)) address 0 m == 0

-- The version that the entry point at `address` is taken for: memcmp is 0 where the bytes agree,
-- and the test is that it is not.
unfoldable pub smbios_version : ℕ → ℕ → ℕ → Bytes → Option ℕ
smbios_version signature_l2 signature_l3 address m =
    if not (memcmp address signature_l2 4 m == 0) && smbios_checksum address m
    then some 2
    else if not (memcmp address signature_l3 5 m == 0) && smbios_checksum address m
    then some 3
    else none

-- The loop of SMBIOS_Initialize, with `n` rounds left; the result has the version and the address,
-- and `none` is the panic.
unfoldable pub smbios_search : ℕ → ℕ → ℕ → ℕ → Bytes → Option (ℕ × ℕ)
smbios_search signature_l2 signature_l3 zero address m = none
smbios_search signature_l2 signature_l3 (suc n) address m =
    let rest = smbios_search signature_l2 signature_l3 n (address + 16) m in
    elim (smbios_version signature_l2 signature_l3 address m) [
      | none ↦ rest
      | some version ↦ some (version, address)
    ]

unfoldable pub smbios_initialize : ℕ → ℕ → Bytes → Option (ℕ × ℕ)
smbios_initialize signature_l2 signature_l3 m =
    smbios_search signature_l2 signature_l3 4096 (0xF0000 + kernel_io_virtual_base) m

-- The sum of `n` bytes.
abbrev pub sum_of : ℕ → ℕ → Bytes → ℕ
sum_of zero address m = 0
sum_of (suc n) address m = m address + sum_of n (address + 1) m

add_bytes_lem :
    (n address checksum : ℕ) (m : Bytes)
    → checksum < 2 ^ 8
    → add_bytes n address checksum m ≡ u8 (checksum + sum_of n address m)
unfolding add_bytes
add_bytes_lem zero address checksum m word = omega arith
add_bytes_lem (suc n) address checksum m word =
    add_bytes_lem n (address + 1) (u8 (checksum + m address)) m (omega arith) ∙ omega arith

-- The checksum is that of the bytes that the length byte counts.
pub smbios_checksum-sum :
    (address : ℕ) (m : Bytes)
    → smbios_checksum address m ≡ (sum_of (m (address + 5)) address m % 2 ^ 8 == 0)
unfolding smbios_checksum
smbios_checksum-sum address m =
    ap (λ c. c == 0) (add_bytes_lem (m (address + 5)) address 0 m (omega arith) ∙ omega arith)

and_false : (b : Bool) → (b && false) ≡ false
and_false true = refl
and_false false = refl

module _ (l2 l3 : ℕ) (m : Bytes) where
  smbios_version-invalid :
      (address : ℕ) → smbios_checksum address m ≡ false → smbios_version l2 l3 address m ≡ none
  unfolding smbios_version
  smbios_version-invalid address bad =
      rw
        (
          bad,
          and_false (not (memcmp address l2 4 m == 0)),
          and_false (not (memcmp address l3 5 m == 0)),
        )
        refl

  smbios_version-swapped :
      (address : ℕ)
      → smbios_checksum address m ≡ true
      → memcmp address l2 4 m ≡ 0
      → memcmp address l3 5 m ≢ 0
      → smbios_version l2 l3 address m ≡ some 3
  unfolding smbios_version
  smbios_version-swapped address good is_l2 not_l3 =
      let differs : (memcmp address l3 5 m == 0) ≡ false = ground (arith, not_l3) in
      rw (is_l2, good, differs) refl

  smbios_search-here :
      (n address version : ℕ)
      → smbios_version l2 l3 address m ≡ some version
      → smbios_search l2 l3 (suc n) address m ≡ some (version, address)
  unfolding smbios_search
  smbios_search-here n address version found = rw (smbios_search, found) refl

  smbios_search-next :
      (n address : ℕ)
      → smbios_version l2 l3 address m ≡ none
      → smbios_search l2 l3 (suc n) address m ≡ smbios_search l2 l3 n (address + 16) m
  unfolding smbios_search
  smbios_search-next n address absent = rw (smbios_search, absent) refl

  -- The structure `k` entries behind `address`, and the only one there with a valid checksum.
  pub record IsFirstValid (k address : ℕ) : Type 0 where
    pub before : (i : ℕ) → i < k → smbios_checksum (address + i * 16) m ≡ false
    pub valid : smbios_checksum (address + k * 16) m ≡ true

  smbios_search-swapped :
      (k n address : ℕ)
      → k < n
      → IsFirstValid k address
      → memcmp (address + k * 16) l2 4 m ≡ 0
      → memcmp (address + k * 16) l3 5 m ≢ 0
      → smbios_search l2 l3 n address m ≡ some (3, address + k * 16)
  smbios_search-swapped k zero address inside first is_l2 not_l3 = absurd (omega arith)
  smbios_search-swapped zero (suc n) address inside first is_l2 not_l3 =
      let same : address + 0 * 16 ≡ address = omega arith in
      subst (λ a. smbios_search l2 l3 (suc n) a m ≡ some (3, address + 0 * 16)) same
        (smbios_search-here n (address + 0 * 16) 3
          (smbios_version-swapped (address + 0 * 16) first.valid is_l2 not_l3))
  smbios_search-swapped (suc k) (suc n) address inside first is_l2 not_l3 =
      let start : address + 0 * 16 ≡ address = omega arith in
      let later : (i : ℕ) → address + suc i * 16 ≡ address + 16 + i * 16 = λ i. omega arith in
      let bad : smbios_checksum address m ≡ false =
        subst (λ a. smbios_checksum a m ≡ false) start (first.before 0 (omega arith)) in
      smbios_search-next n address (smbios_version-invalid address bad)
      ∙ subst (λ a. smbios_search l2 l3 n (address + 16) m ≡ some (3, a)) (sym (later k))
          (smbios_search-swapped k n (address + 16) (omega arith)
            (record {
              before = λ i lt.
                  subst (λ a. smbios_checksum a m ≡ false) (later i)
                    (first.before (suc i) (omega arith));
              valid = subst (λ a. smbios_checksum a m ≡ true) (later k) first.valid;
            })
            (subst (λ a. memcmp a l2 4 m ≡ 0) (later k) is_l2)
            (subst (λ a. memcmp a l3 5 m ≢ 0) (later k) not_l3))

-- A machine whose first structure with a valid checksum, at a multiple of 16 in the 64 KiB that
-- SMBIOS_Initialize searches, has the signature of version 2 and not that of version 3, is taken to
-- have version 3, at that structure.
pub smbios_initialize-swapped :
    (signature_l2 signature_l3 k : ℕ) (m : Bytes)
    → k < 4096
    → IsFirstValid signature_l2 signature_l3 m k (0xF0000 + kernel_io_virtual_base)
    → memcmp (0xF0000 + kernel_io_virtual_base + k * 16) signature_l2 4 m ≡ 0
    → memcmp (0xF0000 + kernel_io_virtual_base + k * 16) signature_l3 5 m ≢ 0
    → smbios_initialize signature_l2 signature_l3 m
      ≡ some (3, 0xF0000 + kernel_io_virtual_base + k * 16)
unfolding smbios_initialize
smbios_initialize-swapped signature_l2 signature_l3 k m inside first is_l2 not_l3 =
    smbios_search-swapped signature_l2 signature_l3 m k 4096 (0xF0000 + kernel_io_virtual_base)
      inside first is_l2 not_l3
