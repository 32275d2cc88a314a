-- ===== src/Page/Tests.antt =====
-- Small pools of pages, and the page allocator run on them.
use cubik_os.Prelude.{
  ℕ, ◌≡◌, ◌≤◌, ◌<◌, ◌*◌, ◌^◌, refl, arith, ◌==◌, if◌then◌else◌, true, false, some, List, [], ◌∷◌,
  zero, suc, length, ltb, none,
}
use cubik_os.Memory.{node, Frame, Store, fault}
use cubik_os.Page.Size.{page_size_order, page_max_order}
use cubik_os.Page.Size.{page_size_order-log2}
use cubik_os.Page.Buddy.{pm_allocate, pm_allocate_pages, pm_free_pages}
use cubik_os.Page.Request.{pm_allocate-order}
use cubik_os.Page.Split.{Fits}
use cubik_os.Page.Pool.{Pool, IsTaken}
use cubik_os.Page.Expand.{buddy, IsUnused, Expanded, pm_expand_page-Expanded}
use cubik_os.Page.Allocate.{Allocated, pm_allocate_pages-Allocated}
use cubik_os.Page.Release.{pm_free_pages-fault}

abbrev frame_of : ℕ → ℕ → Frame
frame_of order addr = record {
  order = order;
  free = true;
  kmem = false;
  slab_inuse = 0;
  slab_objects = 0;
  slab_frozen = false;
  slab_cache = 0;
  freelist = 0;
  lock = 0;
  addr = addr;
}

-- No page is free.
abbrev empty_store : Store
empty_store = record {
  nodes = λ a. some (node 0 0);
  frames = λ a. some (frame_of 0 (a * 64));
  count = λ k. 0;
  pf_freelist = 1000;
}

-- One block of two pages is free.
abbrev two_pages : Store
two_pages = record {
  nodes = λ a.
      if a == 1024
      then some (node 0 10000)
      else if a == 10000
      then some (node 1024 0)
      else some (node 0 0);
  frames = λ a. some (frame_of 1 (a * 64));
  count = λ k. if k == 1 then 1 else 0;
  pf_freelist = 1000;
}

abbrev two_lists : ℕ → List ℕ
two_lists k = if k == 1 then 10000 ∷ [] else []

two_pages-Pool : Pool two_pages two_lists
two_pages-Pool = record {
  chain = λ k le. ground arith;
  apart = λ k le. record { distinct = ground arith; no_null = ground arith };
  counted = λ k le. ground arith;
  disjoint = λ j k lj lk ne a in_j. ground arith;
}

two_pages-unused : IsUnused two_pages two_lists (buddy 10000 0)
two_pages-unused = record {
  frame = frame_of 1 (10064 * 64);
  holds = refl;
  links = node 0 0;
  linked = refl;
  fresh = refl;
  not_null = omega arith;
  out = λ k le. ground arith;
}

unused_below : (k : ℕ) → 0 ≤ k → k < 1 → IsUnused two_pages two_lists (buddy 10000 k)
unused_below zero lo hi = two_pages-unused
unused_below (suc k) lo hi = absurd (omega arith)

empty_below : (k : ℕ) → 0 ≤ k → k < 1 → two_lists k ≡ []
empty_below k lo hi = ground arith

zero_le : 0 ≤ 1
zero_le = omega arith

one_le : 1 ≤ 10
one_le = omega arith

fits_example : Fits 10000
fits_example = omega arith

room_example : length (two_lists 1) < 2 ^ 32
room_example = omega arith

pm_allocate_pages-Allocated_example :
    Allocated two_pages two_lists 0 1 10000 []
      (frame_of 1 (10000 * 64))
      two_pages-Pool
      zero_le
      one_le
      empty_below
      refl
      refl
      refl
      refl
      refl
      fits_example
      room_example
      unused_below
pm_allocate_pages-Allocated_example =
    pm_allocate_pages-Allocated two_pages two_lists 0 1 10000 [] (frame_of 1 (10000 * 64))
      two_pages-Pool zero_le one_le empty_below refl refl refl refl refl fits_example room_example
      unused_below

-- The block of two pages after it has left its list.
abbrev taken_pages : Store
taken_pages = record {
  nodes = λ a. if a == 10000 then some (node 1024 0) else some (node 0 0);
  frames = λ a. some (frame_of 1 (a * 64));
  count = λ k. 0;
  pf_freelist = 1000;
}

abbrev no_lists : ℕ → List ℕ
no_lists k = []

taken_pages-Pool : Pool taken_pages no_lists
taken_pages-Pool = record {
  chain = λ k le. ground arith;
  apart = λ k le. record { distinct = ground arith; no_null = ground arith };
  counted = λ k le. refl;
  disjoint = λ j k lj lk ne a in_j. ground arith;
}

taken_pages-IsTaken : IsTaken taken_pages no_lists 1 10000
taken_pages-IsTaken = record { links = refl; out = λ k le. ground arith }

taken_pages-unused : IsUnused taken_pages no_lists (buddy 10000 0)
taken_pages-unused = record {
  frame = frame_of 1 (10064 * 64);
  holds = refl;
  links = node 0 0;
  linked = refl;
  fresh = refl;
  not_null = omega arith;
  out = λ k le. ground arith;
}

pm_expand_page-Expanded_example :
    Expanded taken_pages no_lists 10000 0 (frame_of 1 (10000 * 64)) taken_pages-unused.frame
pm_expand_page-Expanded_example =
    pm_expand_page-Expanded taken_pages no_lists 1 10000 0 (frame_of 1 (10000 * 64))
      taken_pages-Pool taken_pages-IsTaken taken_pages-unused (omega arith) (omega arith) refl refl
      refl (omega arith) (omega arith)

pm_allocate-order_example :
    (r : ℕ) × (pm_allocate 5000 two_pages ≡ pm_allocate_pages r two_pages)
    × (r ≤ page_max_order)
    × (5000 ≤ 2 ^ r * 4096)
    × (2 ^ r * 4096 < 2 * 5000)
pm_allocate-order_example = pm_allocate-order 5000 two_pages (omega arith) (omega arith)

page_size_order-log2_example :
    (r : ℕ) × (page_size_order 5 ≡ some r) × (2 ^ r ≤ 5) × (5 < 2 ^ suc r) × (r ≤ 10)
page_size_order-log2_example = page_size_order-log2 5 (omega arith) (omega arith)

-- One page of memory, with its descriptor where the kernel has it.
abbrev far_page : Store
far_page = record {
  nodes = λ a. some (node 0 0);
  frames = λ a. if ltb a (2 ^ 52) then none else some (frame_of 0 0x200000);
  count = λ k. 0;
  pf_freelist = 1000;
}

pm_free_pages-fault_example : pm_free_pages 5 0xFFFFFF8000008000 far_page ≡ fault
pm_free_pages-fault_example =
    pm_free_pages-fault far_page 0xFFFFFF8000008000 4 (frame_of 0 0x200000) refl (omega arith) refl
      (omega arith) (omega arith) (omega arith) (λ a lt. ground (arith, lt))
