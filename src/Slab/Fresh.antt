-- ===== src/Slab/Fresh.antt =====
-- The first allocations from a page that the cache has just been given.
use cubik_os.Prelude.{
  ℕ, zero, suc, ◌+◌, ◌-◌, ◌*◌, ◌^◌, ◌≤◌, ◌<◌, ◌≡◌, ◌≢◌, refl, true, arith, List, [], ◌∷◌, length,
  subst, sym, ap,
}
use cubik_os.Memory.{Frame}
use cubik_os.Bytes.{Bytes}
use cubik_os.Machine.{Machine, Act, ok, pure, ◌>>=◌, ◌>>◌}
use cubik_os.Slab.Defs.{Slab, Cache, with_cpu, set_page, link_objects}
use cubik_os.Slab.Allocate.{Source, use_page}
use cubik_os.Slab.Objects.{
  Links, objects_of, page_of, with_objects, set_page-ok, link_objects-Links, apart,
}
use cubik_os.Slab.Taken.{
  IsLinked, with_frame, with_nodes, unlinked, taken, update-same, assign_cpu_slab-linked,
  take_object-ok, cpu_of-with_cpu,
}
use cubik_os.Slab.Runs.{allocate_objects, IsFreeList, Serves, allocate_objects-refines}

-- The addresses of `n` objects of a page, from the object `k` on.
abbrev pub object_list : ℕ → ℕ → ℕ → ℕ → List ℕ
object_list virt size k zero = []
object_list virt size k (suc n) = (virt + k * size) ∷ object_list virt size (k + 1) n

length-object_list : (virt size k n : ℕ) → length (object_list virt size k n) ≡ n
length-object_list virt size k zero = refl
length-object_list virt size k (suc n) = ap suc (length-object_list virt size (k + 1) n)

-- The objects that __slab_SetPage links are a free list.
object_list-IsFreeList :
    (virt size objects : ℕ) (old bytes : Bytes)
    → Links virt size old bytes (objects - 1)
    → virt ≢ 0
    → virt + objects * size ≤ 2 ^ 64
    → (n k : ℕ) → 8 ≤ size
    → k + n < objects
    → IsFreeList bytes (virt + k * size) (object_list virt size k n)
unfolding IsFreeList
object_list-IsFreeList virt size objects old bytes links some_page fits zero k wide few = tt
object_list-IsFreeList virt size objects old bytes links some_page fits (suc n) k wide few =
    let linked =
      links.linked k (omega arith)
        (omega (arith, fits, apart (k + 1) objects size (omega arith))) in
    (
      refl,
      omega (arith, some_page),
      subst (λ p. IsFreeList bytes p (object_list virt size (k + 1) n)) (sym linked)
          (object_list-IsFreeList virt size objects old bytes links some_page fits n (k + 1) wide
            (omega arith)),
    )

-- The allocations that follow when SLOWEST_PATH has got a page at `virt`: the one that asked for it,
-- and then as many others as `n`.
abbrev pub fresh_run : ℕ → Source → ℕ → ℕ → ℕ → ℕ → Slab → Act (ℕ × List ℕ × Slab)
fresh_run rounds source cache page virt n slab = do
  set_page cache (slab.caches cache) page virt
  first ← use_page cache page slab
  others ← allocate_objects rounds n source cache (first).1
  pure ((first).0, (others).0, (others).1)

module _ (cache page virt : ℕ) (slab : Slab) (m : Machine) (f : Frame) (linked : IsLinked m page f)
    (some_page : virt ≢ 0) where
  abbrev c : Cache
  c = slab.caches cache

  abbrev ready : Machine
  ready = with_objects cache page virt c m f

  abbrev bare : Machine
  bare = with_nodes ready (unlinked page m f linked)

  abbrev frozen : Frame
  frozen = record (page_of cache c virt f) { slab_frozen = true }

  abbrev in_use : Machine
  in_use = with_frame (with_frame bare page frozen) page (taken frozen bare)

  abbrev assigned : Slab
  assigned = with_cpu cache (record { freelist = virt; page = page }) slab

  fresh_run-next :
      (rounds n : ℕ) (source : Source) (xs : List ℕ) (slab' : Slab) (m' : Machine)
      → allocate_objects rounds n source cache assigned in_use ≡ ok (xs, slab') m'
      → fresh_run rounds source cache page virt n slab m ≡ ok (virt, xs, slab') m'
  unfolding use_page
  fresh_run-next rounds n source xs slab' m' run =
      rw
        (
          set_page-ok cache page virt c m f linked.here,
          use_page,
          assign_cpu_slab-linked page m f linked cache slab (page_of cache c virt f) ready refl
              (update-same m page (page_of cache c virt f)),
          take_object-ok page (with_frame bare page frozen) frozen (update-same bare page frozen)
              some_page,
          run,
        )
        refl

  fresh-Serves :
      Serves cache page virt 1
        (objects_of c)
        (link_objects virt c.size (objects_of c) m.bytes)
        assigned
        in_use
  fresh-Serves = record {
    cpu = cpu_of-with_cpu cache (record { freelist = virt; page = page }) slab;
    frame = taken frozen bare;
    here = update-same (with_frame bare page frozen) page (taken frozen bare);
    some_inuse = omega arith;
    total = refl;
    memory = refl;
  }

-- With a new page at `virt`, __slab_SetPage, SLOWEST_PATH and FASTEST_PATH give out the objects of
-- the page one after the other, each `size` bytes behind the one before, with one exception: the
-- first object is given out twice, so that the allocation that asked for the page and the next one
-- share it. This holds for as many further allocations as `n` while the page keeps an object
-- back. The page's links are NULL or lead to nodes, whether it is in a list or not; an object has room for a link, the page does not pass the end of the
-- address space, and the page, its descriptor and the cache are not at NULL.
pub use_page-run :
    (rounds : ℕ) (source : Source) (cache page virt n : ℕ) (slab : Slab) (m : Machine) (f : Frame)
    → IsLinked m page f
    → virt ≢ 0
    → page ≢ 0
    → cache ≢ 0
    → 8 ≤ (slab.caches cache).size
    → n + 1 < objects_of (slab.caches cache)
    → virt + objects_of (slab.caches cache) * (slab.caches cache).size ≤ 2 ^ 64
    → (slab' : Slab) × (m' : Machine) × (fresh_run rounds source cache page virt n slab m
        ≡ ok (virt, object_list virt (slab.caches cache).size 0 n, slab') m')
use_page-run rounds source cache page virt n slab m f linked some_virt some_page some_cache wide few
      fits =
    let size = (slab.caches cache).size in
    let objects = objects_of (slab.caches cache) in
    let bytes = link_objects virt size objects m.bytes in
    let xs = object_list virt size 0 n in
    let links = link_objects-Links virt size objects m.bytes wide (omega arith) (omega arith) in
    let free : IsFreeList bytes virt xs =
      subst (λ p. IsFreeList bytes p xs) (omega arith)
        (object_list-IsFreeList virt size objects m.bytes bytes links some_virt fits n 0 wide
          (omega arith)) in
    let run =
      allocate_objects-refines rounds source cache page objects bytes some_cache some_page
        (omega arith) xs virt 1 (assigned cache page virt slab m f linked some_virt)
        (in_use cache page virt slab m f linked some_virt) free
        (omega (arith, length-object_list virt size 0 n))
        (fresh-Serves cache page virt slab m f linked some_virt) in
    (
      (run).0,
      (run).1,
      fresh_run-next cache page virt slab m f linked some_virt rounds n source xs (run).0 (run).1 (
          subst
            (λ k.
              allocate_objects rounds k source cache
                (assigned cache page virt slab m f linked some_virt)
                (in_use cache page virt slab m f linked some_virt)
              ≡ ok (xs, (run).0) (run).1)
            (length-object_list virt size 0 n) (run).2),
    )
