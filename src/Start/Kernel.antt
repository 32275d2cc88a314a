-- ===== src/Start/Kernel.antt =====
-- The kernel's own pages after LoadVirtualMemory has set up the tables.
use cubik_os.Prelude.{
  ℕ, suc, ◌+◌, ◌-◌, ◌*◌, ◌/◌, ◌%◌, ◌^◌, ◌≤◌, ◌<◌, ◌≡◌, refl, ◌≢◌, true, ◌==◌, ltb, if◌then◌else◌,
  some, sweep, sweep_lem, u64, arith, ◌∙◌, ap, sym, ℕ_discrete,
}
use cubik_os.Macros.{align_up, align_down-eq, align_up_lem}
use cubik_os.Machine.{Machine, Act, ok}
use cubik_os.Paging.Tables.{convert_virt_to_phys, is_page_present}
use cubik_os.Paging.Marks.{kernel_virtual_base}
use cubik_os.Paging.Mapping.{IsKernel, IsSeparate, table_of, convert_virt_to_phys-mapped}
use cubik_os.Start.Tables.{
  Symbols, kernel_address, kernel_page_amount, load_dir, load_dirs, load_marks, map_kernel,
}

-- The pointers after `k` rounds over the directory.
record Filled (symbols : Symbols) (old m : Machine) (k : ℕ) : Type 0 where
  filled :
      (j : ℕ)
      → m.pointers 510 j ≡ (if ltb j k then symbols.page_tables + j * 4096 else old.pointers 510 j)
  others : (i j : ℕ) → i ≢ 510 → m.pointers i j ≡ old.pointers i j

Filled-step :
    (symbols : Symbols) (old m : Machine) (k : ℕ)
    → Filled symbols old m k
    → Filled symbols old (load_dir symbols m k) (suc k)
unfolding load_dir
Filled-step symbols old m k h = record {
  filled = λ j. ground (arith, h.filled j);
  others = λ i j ne. ground (arith, h.others i j ne, ne);
}

load_dirs-Filled : (symbols : Symbols) (m : Machine) → Filled symbols m (load_dirs symbols m) 512
unfolding load_dirs
load_dirs-Filled symbols m =
    sweep_lem (load_dir symbols) (Filled symbols m) (Filled-step symbols m) 512 0 m
      (record { filled = λ j. ground arith; others = λ i j ne. refl })

load_marks-pointers :
    (symbols : Symbols) (m : Machine) → (load_marks symbols m).pointers ≡ m.pointers
unfolding load_marks sweep
load_marks-pointers symbols m = refl

module _ (symbols : Symbols) (m : Machine) (clear : (i j : ℕ) → m.pointers i j ≡ 0)
    (low : 0 < symbols.page_tables) (high : symbols.page_tables + 512 * 4096 ≤ 2 ^ 64) where
  ready : Machine
  ready = load_marks symbols (load_dirs symbols m)

  ready-pointers :
      (v : ℕ)
      → IsKernel v
      → table_of ready v
        ≡ (if v / 2 ^ 18 % 512 == 510 then symbols.page_tables + v / 2 ^ 9 % 512 * 4096 else 0)
  unfolding ready
  ready-pointers v k =
      let done = load_dirs-Filled symbols m in
      let same = load_marks-pointers symbols (load_dirs symbols m) in
      ap (λ t. t (v / 2 ^ 18 % 512) (v / 2 ^ 9 % 512)) same
      ∙ elim (ℕ_discrete (v / 2 ^ 18 % 512) 510) [
        | yes top ↦ rw top (done.filled (v / 2 ^ 9 % 512) ∙ ground arith)
        | no other ↦
            done.others (v / 2 ^ 18 % 512) (v / 2 ^ 9 % 512) other
            ∙ clear (v / 2 ^ 18 % 512) (v / 2 ^ 9 % 512)
            ∙ ground (arith, other)
      ]

  ready-IsSeparate : IsSeparate ready
  ready-IsSeparate v w kv kw same some_table =
      ground (arith, ready-pointers v kv, ready-pointers w kw)

  ready-some : (w : ℕ) → 2 ^ 52 - 2 ^ 19 ≤ w → w < 2 ^ 52 - 2 ^ 18 → table_of ready w ≢ 0
  ready-some w lo hi e =
      let k : IsKernel w = record { above = omega arith; below = omega arith } in
      let top : w / 2 ^ 18 % 512 ≡ 510 = omega arith in
      let here : table_of ready w ≡ symbols.page_tables + w / 2 ^ 9 % 512 * 4096 =
        ready-pointers w k ∙ rw top refl in
      absurd (omega (arith, here, e))

-- Where the kernel lies, in pages: from the page `a` above the base on, `n` of them.
module _ (symbols : Symbols) (start : kernel_virtual_base ≤ symbols.kernel_start)
    (size : symbols.kernel_start ≤ symbols.kernel_end)
    (stop : symbols.kernel_end + 4096 ≤ kernel_virtual_base + 2 ^ 30) where
  first_page : ℕ
  first_page = symbols.kernel_start / 4096

  last_page : ℕ
  last_page = align_up symbols.kernel_end 4096 / 4096

  kernel_address-page : kernel_address symbols ≡ first_page * 4096
  unfolding first_page
  kernel_address-page = align_down-eq 52 12 symbols.kernel_start refl (omega arith)

  last_page-exact :
      (align_up symbols.kernel_end 4096 ≡ last_page * 4096)
      × (symbols.kernel_end ≤ last_page * 4096)
      × (last_page * 4096 < symbols.kernel_end + 4096)
  unfolding last_page
  last_page-exact =
      let (exact, le, lt) = align_up_lem 52 12 symbols.kernel_end refl (omega arith) in
      (omega (arith, exact), omega (arith, exact, le), omega (arith, exact, lt))

  kernel_page_amount-pages : kernel_page_amount symbols ≡ last_page - first_page
  unfolding first_page
  kernel_page_amount-pages =
      let (exact, le, lt) = last_page-exact in
      rw (kernel_address-page, exact) (omega (arith, le, lt))

  kernel_address-physical :
      u64 (first_page * 4096 + 2 ^ 64 - kernel_virtual_base)
      ≡ (first_page - kernel_virtual_base / 4096) * 4096
  unfolding first_page
  kernel_address-physical = omega arith

-- From tables that are all NULL at first, the tables that LoadVirtualMemory sets up map the
-- kernel: where the kernel lies in the 1 GiB from KERNEL_VIRTUAL_BASE on and the array of tables
-- in the address space, the call of MapVirtualAddress returns, each address of the kernel
-- translates to its distance from the base, and its page is present.
pub map_kernel-mapped :
    (alloc : Act ℕ) (symbols : Symbols) (m : Machine)
    → ((i j : ℕ) → m.pointers i j ≡ 0)
    → 0 < symbols.page_tables
    → symbols.page_tables + 512 * 4096 ≤ 2 ^ 64
    → kernel_virtual_base ≤ symbols.kernel_start
    → symbols.kernel_start ≤ symbols.kernel_end
    → symbols.kernel_end + 4096 ≤ kernel_virtual_base + 2 ^ 30
    → (m' : Machine) × (map_kernel alloc symbols m ≡ ok tt m')
      × ((addr : ℕ)
          → symbols.kernel_start ≤ addr
          → addr < symbols.kernel_end
          → (convert_virt_to_phys addr m' ≡ addr - kernel_virtual_base)
            × (is_page_present addr m' ≡ some true))
unfolding map_kernel first_page ready
map_kernel-mapped alloc symbols m clear low high start size stop =
    let v = first_page symbols start size stop in
    let last = last_page symbols start size stop in
    let (exact, le, lt) = last_page-exact symbols start size stop in
    let kv : IsKernel v = record { above = omega arith; below = omega arith } in
    let (entries, run, pages) =
      convert_virt_to_phys-mapped alloc (last - v) (v - kernel_virtual_base / 4096) v 3
        (ready symbols m clear low high) (ready-IsSeparate symbols m clear low high) kv
        (omega arith) (omega arith)
        (λ w lo hi. ready-some symbols m clear low high w (omega arith) (omega arith)) in
    let m' : Machine = record (ready symbols m clear low high) { entries = entries } in
    (
      m',
      rw
          (
            kernel_page_amount-pages symbols start size stop,
            kernel_address-page symbols start size stop,
            kernel_address-physical symbols start size stop,
          )
          run,
      λ addr lo hi.
          let i = addr / 4096 - v in
          let off = addr % 4096 in
          let split : (v + i) * 4096 + off ≡ addr = omega arith in
          let (phys, there) = pages i off (omega arith) (omega arith) in
          (
            ap (λ a. convert_virt_to_phys a m') (sym split) ∙ phys ∙ omega arith,
            ap (λ a. is_page_present a m') (sym split) ∙ there,
          ),
    )
