-- ===== src/Page/Release.antt =====
-- PM_FreePages and PM_CombinePage.
use native.Mathlib.Nat.{pow-le-pow_right}
use cubik_os.Prelude.{
  ◌<◌, Bool-cases, inl, inr, refl, ℕ, suc, ◌+◌, ◌-◌, ◌*◌, ◌%◌, ◌^◌, ◌≤◌, ◌≡◌, ◌≢◌, arith, ◌==◌,
  if◌then◌else◌, true, false, none, some, update, u32, u64,
}
use cubik_os.Memory.{Frame, Store, fault, null, store_frame, load_frame-ok, load_frame-fault}
use cubik_os.Page.Size.{arch_page_size, page_max_order}
use cubik_os.Page.Buddy.{acquire_lock, release_lock, pm_combine_page, combine_loop, pm_free_pages}

-- The address at which PM_CombinePage looks for the neighbour's descriptor: a physical address.
abbrev pub neighbour : Frame → ℕ
neighbour f =
    let order_size = u32 (2 ^ f.order * arch_page_size) in
    if f.addr % order_size == 0
    then u64 (f.addr + order_size)
    else u64 (f.addr + 2 ^ 64 - order_size)

-- Unless a descriptor happens to lie at the neighbour's physical address, releasing a page is a
-- fault: the access goes to that address itself.
pub pm_combine_page-fault :
    (s : Store) (p : ℕ) (f : Frame)
    → s.frames p ≡ some f
    → s.frames (neighbour f) ≡ none
    → pm_combine_page p s ≡ fault
unfolding pm_combine_page
pm_combine_page-fault s p f here away =
    rw (load_frame-ok s p here, load_frame-fault s (neighbour f) away)

-- The neighbour of a block that lies in memory below 2 ^ 52 lies there too.
neighbour_lt :
    (f : Frame)
    → f.order ≤ page_max_order
    → 2 ^ f.order * arch_page_size ≤ f.addr
    → f.addr + 2 ^ f.order * arch_page_size < 2 ^ 52
    → neighbour f < 2 ^ 52
neighbour_lt f le lo hi =
    let bound : 2 ^ f.order ≤ 1024 =
      pow-le-pow_right {n = 2} (omega arith) {i = f.order} {j = 10} le in
    let small : u32 (2 ^ f.order * arch_page_size) ≡ 2 ^ f.order * arch_page_size = omega arith in
    elim (Bool-cases (f.addr % u32 (2 ^ f.order * arch_page_size) == 0)) [
      | inl aligned ↦ rw aligned (omega (arith, small))
      | inr other ↦ rw other (omega (arith, small))
    ]

-- Where no descriptor lies below 2 ^ 52, as the physical memory does, PM_FreePages of an unlocked page
-- is a fault: PM_CombinePage follows the physical address of the neighbour as if it were that of its
-- descriptor. The block has an order of the allocator and does not start at the very beginning of
-- the memory, and the loop has fuel for a round.
pub pm_free_pages-fault :
    (s : Store) (p fuel : ℕ) (f : Frame)
    → s.frames p ≡ some f
    → p ≢ null
    → f.lock ≡ 0
    → f.order ≤ page_max_order
    → 2 ^ f.order * arch_page_size ≤ f.addr
    → f.addr + 2 ^ f.order * arch_page_size < 2 ^ 52
    → ((a : ℕ) → a < 2 ^ 52 → s.frames a ≡ none)
    → pm_free_pages (suc fuel) p s ≡ fault
unfolding pm_free_pages acquire_lock release_lock store_frame combine_loop
pm_free_pages-fault s p fuel f here some_page unlocked le lo hi away =
    let below = neighbour_lt f le lo hi in
    let missing = away (neighbour f) below in
    let far : neighbour f ≢ p = λ e. ground (arith, e, missing, here) in
    let given : (p == 0) ≡ false = ground (arith, some_page) in
    let open_lock : (f.lock == 0) ≡ true = ground (arith, unlocked) in
    let locked : Store = record s { frames = update s.frames p (some (record f { lock = 1 })) } in
    let freed : Store = record locked {
      frames = update locked.frames p (some (record f { lock = 1; free = true }));
    } in
    let released : Store = record freed {
      frames = update freed.frames p (some (record f { lock = 0; free = true }));
    } in
    rw
      (
        given,
        load_frame-ok s p here,
        open_lock,
        load_frame-ok locked p {f = record f { lock = 1 }} (ground arith),
        load_frame-ok freed p {f = record f { lock = 1; free = true }} (ground arith),
        pm_combine_page-fault released p (record f { lock = 0; free = true }) (ground arith)
            (ground (arith, missing, far)),
      )
      refl
