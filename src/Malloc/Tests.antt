-- ===== src/Malloc/Tests.antt =====
-- One page for the kernel, from a pool that has one page.
use cubik_os.Prelude.{
  ℕ, ◌≡◌, ◌+◌, ◌*◌, ◌%◌, ◌<◌, ◌==◌, inl, true, false, if◌then◌else◌, some, List, [], ◌∷◌, refl,
  arith, bit_and,
}
use cubik_os.Memory
use cubik_os.Memory.{Node, node, Frame, Store}
use cubik_os.Bytes.{Bytes, load, load64}
use cubik_os.Machine.{Machine, ok}
use cubik_os.Page.Buddy.{pm_allocate_pages}
use cubik_os.Page.Pool.{Pool}
use cubik_os.Page.Allocate.{pm_allocate_pages-Allocated}
use cubik_os.Paging.Tables.{convert_virt_to_phys}
use cubik_os.Paging.Mapping.{IsSeparate}
use cubik_os.Paging.Marks.{one_shl}
use cubik_os.Paging.Used.{Marks, IsUsed, word_of, address_of}
use cubik_os.Malloc.Defs.{allocate_pages}
use cubik_os.Paging.Runs.{IsUnmarked, IsFirstRun}
use cubik_os.Paging.Several.{IsOpen}
use cubik_os.Prelude.{◌≤◌, ◌≢◌, ◌-◌, ◌^◌, subst, sym, ℕ_discrete}
use cubik_os.Malloc.Several.{allocate_pages-several}
use cubik_os.Malloc.Single.{allocate_pages-single}

abbrev page_frame : Frame
page_frame = record {
  order = 0;
  free = true;
  kmem = false;
  slab_inuse = 0;
  slab_objects = 0;
  slab_frozen = false;
  slab_cache = 0;
  freelist = 0;
  lock = 0;
  addr = 160 * 4096;
}

-- The handle of order 0 is at 1000, and behind it is the page at 10240.
abbrev one_free : Store
one_free = record {
  nodes = λ a.
      if a == 1000
      then some (node 0 10240)
      else if a == 10240
      then some (node 1000 0)
      else some (node 0 0);
  frames = λ a. some page_frame;
  count = λ k. if k == 0 then 1 else 0;
  pf_freelist = 1000;
}

abbrev lists : ℕ → List ℕ
lists k = if k == 0 then 10240 ∷ [] else []

one_free-Pool : Pool one_free lists
one_free-Pool = record {
  chain = λ k le. ground arith;
  apart = λ k le. record { distinct = ground arith; no_null = ground arith };
  counted = λ k le. ground arith;
  disjoint = λ j k lj lk ne a in_j. ground arith;
}

taken_page :
    (after : Store) × (pm_allocate_pages 0 one_free ≡ Memory.ok 10240 after)
    × (after.frames 10240 ≡ some (record page_frame { order = 0; free = false; lock = 0 }))
taken_page =
    let served =
      pm_allocate_pages-Allocated one_free lists 0 0 10240 [] page_frame one_free-Pool (omega arith)
        (omega arith) (λ k lo hi. absurd (omega arith)) refl refl refl refl refl (omega arith)
        (omega arith) (λ k lo hi. absurd (omega arith)) in
    (served.after, served.run, served.page)

-- The pointer 5000 at 16, and no mark.
abbrev no_marks : Bytes
no_marks a = if a == 16 then 136 else if a == 17 then 19 else 0

abbrev machine : Machine
machine = record {
  store = one_free;
  pointers = λ i j. 4096 * (i * 512 + j + 1);
  entries = λ t i. record { present = false; writable = false; usr = false; addr = 0 };
  dirs = λ i j. record { present = false; writable = false; usr = false; addr = 0 };
  bytes = no_marks;
  memory_allocated = 0;
  pages = 0;
}

machine-IsSeparate : IsSeparate machine
machine-IsSeparate v w kv kw same some_table =
    omega (arith, same, kv.above, kv.below, kw.above, kw.below)

no_marks-Marks : Marks 16 5000 no_marks
unfolding load
no_marks-Marks = record {
  pointer = refl;
  some = omega arith;
  apart = inl (omega arith);
  bytes = λ a. ground arith;
}

first_free : bit_and (word_of 5000 0 no_marks) (one_shl (0 % 64)) ≡ 0
unfolding load one_shl
first_free = refl

allocate_pages-single_example :
    (m' : Machine) × (allocate_pages 1 16 1 machine ≡ ok (address_of true 0) m')
    × ((off : ℕ)
        → off < 4096
        → convert_virt_to_phys (address_of true 0 + off) m' ≡ 160 * 4096 + off)
    × IsUsed 5000 0 m'.bytes
    × (m'.store ≡ taken_page.0)
allocate_pages-single_example =
    allocate_pages-single 0 16 5000 0 10240 160
      (record page_frame { order = 0; free = false; lock = 0 }) taken_page.0 machine taken_page.1
      (omega arith) taken_page.2 refl (omega arith) no_marks-Marks (omega arith) first_free
      (λ r lt. absurd (omega arith)) machine-IsSeparate (omega arith)

-- The handle of order 1 is at 1024, and behind it is a block of two pages.
abbrev two_free : Store
two_free = record {
  nodes = λ a.
      if a == 1024
      then some (node 0 10240)
      else if a == 10240
      then some (node 1024 0)
      else some (node 0 0);
  frames = λ a. some (record page_frame { order = 1 });
  count = λ k. if k == 1 then 1 else 0;
  pf_freelist = 1000;
}

abbrev two_lists : ℕ → List ℕ
two_lists k = if k == 1 then 10240 ∷ [] else []

two_free-Pool : Pool two_free two_lists
two_free-Pool = record {
  chain = λ k le. ground arith;
  apart = λ k le. record { distinct = ground arith; no_null = ground arith };
  counted = λ k le. ground arith;
  disjoint = λ j k lj lk ne a in_j. ground arith;
}

taken_block :
    (after : Store) × (pm_allocate_pages 1 two_free ≡ Memory.ok 10240 after)
    × (after.frames 10240 ≡ some (record page_frame { order = 1; free = false; lock = 0 }))
taken_block =
    let served =
      pm_allocate_pages-Allocated two_free two_lists 1 1 10240 [] (record page_frame { order = 1 })
        two_free-Pool (omega arith) (omega arith) (λ k lo hi. absurd (omega arith)) refl refl refl
        refl refl (omega arith) (omega arith) (λ k lo hi. absurd (omega arith)) in
    (served.after, served.run, served.page)

no_marks-IsUnmarked : (q : ℕ) → 1 ≤ q → q < 1 + 2 → IsUnmarked 5000 q no_marks
unfolding load one_shl
no_marks-IsUnmarked q lo hi = elim (ℕ_discrete q 1) [
  | yes e ↦ subst (λ r. IsUnmarked 5000 r no_marks) (sym e) refl
  | no other ↦ subst (λ r. IsUnmarked 5000 r no_marks) {x = 2} {y = q} (omega arith) second
]
  where
    second : IsUnmarked 5000 2 no_marks
    second = refl

no_marks-IsFirstRun : IsFirstRun 5000 2 1 no_marks
no_marks-IsFirstRun = record {
  positive = omega arith;
  unused = no_marks-IsUnmarked;
  first = λ t lo hi. absurd (omega arith);
}

no_marks-IsOpen : IsOpen 5000 0 3 no_marks
unfolding load
no_marks-IsOpen = record {
  filled = λ sub lt. absurd (omega arith);
  opened = λ sub le lt.
      let zero_word : 0 ≡ sub = omega arith in
      subst (λ i. load64 (5000 + 8 * i) no_marks ≢ 2 ^ 64 - 1) zero_word (omega arith);
}

allocate_pages-several_example :
    (m' : Machine) × (allocate_pages 1 16 2 (record machine { store = two_free })
      ≡ ok (address_of true 1) m')
    × ((i off : ℕ)
        → i < 2
        → off < 4096
        → convert_virt_to_phys (address_of true 1 + i * 4096 + off) m'
          ≡ 160 * 4096 + i * 4096 + off)
    × ((q : ℕ) → 1 ≤ q → q < 1 + 2 → IsUsed 5000 q m'.bytes)
    × (m'.store ≡ taken_block.0)
allocate_pages-several_example =
    allocate_pages-several 0 16 5000 2 1 1 0 10240 160
      (record page_frame { order = 1; free = false; lock = 0 }) taken_block.0
      (record machine { store = two_free }) (omega arith) (omega arith) (omega arith) (omega arith)
      taken_block.1 (omega arith) taken_block.2 refl (omega arith) no_marks-Marks (omega arith)
      no_marks-IsFirstRun no_marks-IsOpen
      (λ v w kv kw same some_table. omega (arith, same, kv.above, kv.below, kw.above, kw.below))
      (λ w lo hi. omega arith)
