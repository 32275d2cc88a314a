-- ===== src/Slab/Tests.antt =====
-- A cache of objects of 1024 bytes, and one page.
use cubik_os.Prelude.{ℕ, ◌≡◌, ◌+◌, ◌*◌, ◌<◌, inr, false, some, refl, arith}
use cubik_os.Memory.{node, Frame}
use cubik_os.Bytes.{load64}
use cubik_os.Machine.{Machine, ok}
use cubik_os.Slab.Defs.{Cache, Slab, block_size, km_find_cache, set_page}
use cubik_os.Slab.Allocate.{Source}
use cubik_os.Slab.Sizes.{IsFirst, km_find_cache-IsFirst}
use cubik_os.Slab.Objects.{page_of, set_page-linked}
use cubik_os.Slab.Taken.{IsLinked}
use cubik_os.Slab.Runs.{allocate_objects, IsFreeList, after, Serves, allocate_objects-refines}
use cubik_os.Slab.Fresh.{object_list, fresh_run, use_page-run}
use cubik_os.Prelude.{List, [], ◌∷◌, if◌then◌else◌, ◌==◌}
use cubik_os.Bytes.{Bytes}

abbrev page_frame : Frame
page_frame = record {
  order = 0;
  free = false;
  kmem = false;
  slab_inuse = 0;
  slab_objects = 4;
  slab_frozen = false;
  slab_cache = 0;
  freelist = 8192;
  lock = 0;
  addr = 8192;
}

abbrev machine : Machine
machine = record {
  store = record {
    nodes = λ a. some (node 0 0);
    frames = λ a. some page_frame;
    count = λ k. 0;
    pf_freelist = 0;
  };
  pointers = λ i j. 0;
  entries = λ t i. record { present = false; writable = false; usr = false; addr = 0 };
  dirs = λ i j. record { present = false; writable = false; usr = false; addr = 0 };
  bytes = λ a. 7;
  memory_allocated = 0;
  pages = 0;
}

abbrev cache_1024 : Cache
cache_1024 = record {
  cpu_slab = λ i. record { freelist = 0; page = 0 };
  flags = 0;
  size = 1024;
  node = λ i. 0;
  reserved = 0;
}

abbrev slab : Slab
slab = record {
  caches = λ a. cache_1024;
  nodes = λ a. record { lock = 0; nr_partial = 0 };
  pointers = λ order. 4096 * (order + 1);
  cpu = 2;
}

abbrev source : Source
source = record { fuel = 1; bitmap = 0; junk = 99 }

km_find_cache-IsFirst_example :
    (order : ℕ) × (km_find_cache 784 99 64 slab ≡ 4096 * (order + 1))
    × IsFirst (block_size 784) 64 16 0 order
km_find_cache-IsFirst_example = km_find_cache-IsFirst 784 99 64 slab (omega arith)

set_page-linked_example :
    (m' : Machine) × (set_page 500 cache_1024 64 8192 machine ≡ ok tt m')
    × (m'.store.frames 64 ≡ some (page_of 500 cache_1024 8192 page_frame))
    × ((i : ℕ) → i + 1 < 4 → load64 (8192 + i * 1024) m'.bytes ≡ 8192 + (i + 1) * 1024)
    × (load64 (8192 + 3 * 1024) m'.bytes ≡ load64 (8192 + 3 * 1024) (λ a. 7))
set_page-linked_example =
    set_page-linked 500 64 8192 cache_1024 machine page_frame refl (omega arith) (omega arith)
      (omega arith)

-- The page still has the links from the list that it was taken out of.
abbrev listed : Machine
listed = record machine {
  store = record machine.store { nodes = λ a. some (if a == 64 then node 1000 128 else node 0 0) };
}

listed_page : IsLinked listed 64 page_frame
listed_page = record {
  links = node 1000 128;
  at = refl;
  prev = inr (node 0 0, refl);
  next = inr (node 0 0, refl);
  here = refl;
}

use_page-run_example :
    (slab' : Slab) × (m' : Machine) × (fresh_run 0 source 500 64 8192 2 slab listed
      ≡ ok (8192, object_list 8192 1024 0 2, slab') m')
use_page-run_example =
    use_page-run 0 source 500 64 8192 2 slab listed page_frame listed_page (omega arith)
      (omega arith) (omega arith) (omega arith) (omega arith) (omega arith)

-- At 8192 stands 9216.
abbrev two_linked : Bytes
two_linked a = if a == 8193 then 36 else 0

abbrev serving : Slab
serving = record slab {
  caches = λ a. record cache_1024 { cpu_slab = λ i. record { freelist = 8192; page = 64 } };
}

abbrev two_objects : List ℕ
two_objects = 8192 ∷ 9216 ∷ []

two_linked-IsFreeList : IsFreeList two_linked 8192 two_objects
unfolding IsFreeList cubik_os.Bytes.load
two_linked-IsFreeList = (refl, omega arith, (refl, omega arith, tt))

allocate_objects-refines_example :
    (slab' : Slab) × (m' : Machine) × (allocate_objects 0 2 source 500 serving
        (record machine { bytes = two_linked })
      ≡ ok (two_objects, slab') m')
    × Serves 500 64 (after two_linked 8192 two_objects) 2 4 two_linked slab' m'
allocate_objects-refines_example =
    allocate_objects-refines 0 source 500 64 4 two_linked (omega arith) (omega arith) (omega arith)
      two_objects 8192 0 serving (record machine { bytes = two_linked }) two_linked-IsFreeList
      (omega arith)
      (record {
        cpu = refl;
        frame = page_frame;
        here = refl;
        some_inuse = refl;
        total = refl;
        memory = refl;
      })
