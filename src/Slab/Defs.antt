-- ===== src/Slab/Defs.antt =====
-- Kernel/src/mm/slub.c and Kernel/include/mm/slub.h. The caches and the memory nodes are records
-- at their addresses; the lists of pages and the descriptors are in the machine's store, and the
-- objects in its bytes.
use cubik_os.Prelude.{
  ℕ, zero, suc, ◌+◌, ◌-◌, ◌*◌, ◌/◌, ◌%◌, ◌^◌, true, ◌==◌, ltb, if◌then◌else◌, Option, none, some,
  List, [], ◌∷◌, get_or, update, sweep, u64,
}
use cubik_os.Memory.{load_node, load_frame, store_frame}
use cubik_os.LinkedList.Defs.{list_remove, list_append}
use cubik_os.Bytes.{Bytes, store64}
use cubik_os.Machine.{Act, ok, fault, hang, pure, lift, ◌>>=◌, ◌>>◌}
use cubik_os.Paging.Tables.{convert_virt_to_phys}
use cubik_os.Malloc.Defs.{allocate_pages}
use cubik_os.Start.Zones.{pm_get_page}

-- `struct KCpuCache`, whose list of partial pages has its head in the store.
pub record CpuCache : Type 0 where
  pub freelist : ℕ
  pub page : ℕ

-- `struct KMemoryNode`, whose list has its head in the store.
pub record MemoryNode : Type 0 where
  pub lock : ℕ
  pub nr_partial : ℕ

-- `struct KMemoryCache`, less the fields that nothing uses.
pub record Cache : Type 0 where
  pub cpu_slab : ℕ → CpuCache
  pub flags : ℕ
  pub size : ℕ
  pub node : ℕ → ℕ
  pub reserved : ℕ

-- `pointers` is g_cachePointers with the words of memory behind its 16 elements, which the code
-- reaches with the index 16, and `cpu` the number of the processor that runs.
pub record Slab : Type 0 where
  pub caches : ℕ → Cache
  pub nodes : ℕ → MemoryNode
  pub pointers : ℕ → ℕ
  pub cpu : ℕ

abbrev pub with_cache : Slab → ℕ → Cache → Slab
with_cache slab cache c = record slab { caches = update slab.caches cache c }

-- `&cache->cpu_slab[cpu].partial` and `&node->partial`
abbrev pub cpu_partial : ℕ → ℕ → ℕ
cpu_partial cache cpu = cache + 24 + cpu * 32 + 16

abbrev pub node_partial : ℕ → ℕ
node_partial node = node + 16

abbrev pub node_size : ℕ
node_size = 32

-- blockSize; the last entry is sizeof(struct Thread), which the types of the processor's
-- registers determine.
abbrev pub block_size : ℕ → List ℕ
block_size thread_size =
    8 ∷ 16 ∷ 32 ∷ 48 ∷ 64 ∷ 96 ∷ 128 ∷ 192 ∷ 256 ∷ 512 ∷ 768 ∷ 1024 ∷ 1536 ∷ 2048 ∷ 4096 ∷ 8192
    ∷ thread_size ∷ []

abbrev pub slab_max_block_order : ℕ
slab_max_block_order = 16

-- __slab_SetCache. `size` is what `blockSize[size]` reads with the uninitialised variable as its
-- index, in the table or elsewhere. A division by 0 is an exception, which is a fault here.
unfoldable pub set_cache : ℕ → ℕ → ℕ → ℕ → ℕ → Slab → Act Slab
set_cache size list cache order flags slab =
    if cache == 0 then (λ m. hang) else if size == 0 then (λ m. fault) else do
      let old = slab.caches cache
      lift (list_append list cache)
      pure
          (record (with_cache slab cache (record {
            cpu_slab =
                sweep (λ cpus i. update cpus i (record (cpus i) { freelist = 0 })) 0 256
                  old.cpu_slab;
            flags = flags;
            size = size;
            node = sweep (λ nodes i. update nodes i (cache + i * node_size)) 0 4 old.node;
            reserved = if 4096 % size == 0 then old.reserved else 4096 - 4096 / size * size;
          })) { pointers = update slab.pointers order cache })

-- The loop of KM_Initialize from `idx` on, with `n` rounds left; `sizes` are the sizes that the
-- rounds read.
unfoldable pub set_caches : ℕ → ℕ → (ℕ → ℕ) → ℕ → ℕ → ℕ → Slab → Act Slab
set_caches fuel bitmap sizes list zero idx slab = pure slab
set_caches fuel bitmap sizes list (suc n) idx slab = do
  cache ← allocate_pages fuel bitmap 4
  next ← set_cache (sizes idx) list cache idx 0 slab
  set_caches fuel bitmap sizes list n (idx + 1) next

-- KM_Initialize, whose loop starts at an uninitialised index.
unfoldable pub km_initialize : ℕ → ℕ → (ℕ → ℕ) → ℕ → ℕ → Slab → Act Slab
km_initialize fuel bitmap sizes list first slab =
    set_caches fuel bitmap sizes list (17 - first) first slab

-- The links of the free objects: each but the last has the address of the next.
unfoldable pub link_objects : ℕ → ℕ → ℕ → Bytes → Bytes
link_objects virt size objects bytes =
    sweep (λ b i. store64 (virt + i * size) (u64 (virt + (i + 1) * size)) b) 0
      (u64 (objects + 2 ^ 64 - 1)) bytes

-- __slab_SetPage. `slab_objects` is a field of 15 bits.
unfoldable pub set_page : ℕ → Cache → ℕ → ℕ → Act (Unit {0})
set_page cache c page virt = do
  f ← lift (load_frame page)
  let objects = (4096 - c.reserved) / c.size % 2 ^ 15
  lift (
      store_frame page (record f {
        kmem = true;
        slab_cache = cache;
        freelist = virt;
        slab_objects = objects;
        slab_inuse = 0;
      }))
  λ m. ok tt (record m { bytes = link_objects virt c.size objects m.bytes })

-- __slab_RequestPage. CallPanic does not return, and a descriptor at NULL is a fault.
unfoldable pub request_page : ℕ → ℕ → ℕ → Cache → Act ℕ
request_page fuel bitmap cache c = do
  virt ← allocate_pages fuel bitmap 1
  (if virt == 0 then (λ m. hang) else do
    page ← (λ m. pm_get_page (convert_virt_to_phys virt m) m)
    (if page == 0 then (λ m. fault) else do set_page cache c page virt; pure page))

-- The first order from `order` on, `n` of them, whose blocks are larger than `size`.
unfoldable pub first_order : List ℕ → ℕ → ℕ → ℕ → Option ℕ
first_order blocks size zero order = none
first_order blocks size (suc n) order =
    let rest = first_order blocks size n (order + 1) in
    if ltb size (get_or blocks order 0) then some order else rest

-- KM_FindCache; `junk` is what its uninitialised result holds.
unfoldable pub km_find_cache : ℕ → ℕ → ℕ → Slab → ℕ
km_find_cache thread_size junk size slab =
    if ltb 8192 size then 0 else elim (first_order (block_size thread_size) size 16 0) [
      | none ↦ junk
      | some order ↦ slab.pointers order
    ]

abbrev pub with_node : Slab → ℕ → MemoryNode → Slab
with_node slab node n = record slab { nodes = update slab.nodes node n }

-- __slab_GetPartialPage. A page of the node's list is unlinked, but the result is the outer
-- variable of that name, of which `junk` is the content.
unfoldable pub get_partial_page : ℕ → ℕ → ℕ → ℕ → Slab → Act (ℕ × Slab)
get_partial_page fuel bitmap junk cache slab =
    let node = (slab.caches cache).node 0 in
    let n = slab.nodes node in
    if n.lock == 0
    then (if n.nr_partial == 0
        then (do
          page ← request_page fuel bitmap cache (slab.caches cache)
          pure (page, with_node slab node (record n { lock = 0 })))
        else (do
          head ← lift (load_node (node_partial node))
          lift (list_remove head.next)
          pure (junk, with_node slab node (record n { lock = 0; nr_partial = n.nr_partial - 1 }))))
    else (λ m. hang)

-- `slabCpu` is the processor's part of the cache.
abbrev pub cpu_of : ℕ → Slab → CpuCache
cpu_of cache slab = (slab.caches cache).cpu_slab slab.cpu

abbrev pub with_cpu : ℕ → CpuCache → Slab → Slab
with_cpu cache c slab =
    with_cache slab cache
      (record (slab.caches cache) { cpu_slab = update (slab.caches cache).cpu_slab slab.cpu c })

-- __slab_AssignCpuSlab
unfoldable pub assign_cpu_slab : ℕ → ℕ → Slab → Act Slab
assign_cpu_slab cache page slab = do
  lift (list_remove page)
  f ← lift (load_frame page)
  lift (store_frame page (record f { slab_frozen = true }))
  pure (with_cpu cache (record { freelist = f.freelist; page = page }) slab)
