-- ===== src/Slab/Allocate.antt =====
-- Kernel/src/mm/slub.c: the allocation of an object.
use cubik_os.Prelude.{ℕ, zero, suc, ◌+◌, ◌||◌, ◌==◌, ltb, if◌then◌else◌, u16, u32}
use cubik_os.Memory.{load_node, load_frame, store_frame}
use cubik_os.LinkedList.Defs.{list_remove}
use cubik_os.Bytes.{load64}
use cubik_os.Machine.{Act, ok, fault, hang, spent, pure, lift, ◌>>=◌, ◌>>◌}
use cubik_os.Slab.Defs.{
  Slab, with_cpu, cpu_of, cpu_partial, request_page, get_partial_page, assign_cpu_slab,
  km_find_cache, slab_max_block_order,
}

-- `*ptr`, which is a fault for NULL.
unfoldable pub follow : ℕ → Act ℕ
follow ptr m = if ptr == 0 then fault else ok (load64 ptr m.bytes) m

-- What the functions need besides the slab: the fuel and the bitmap of AllocatePages, and what an
-- uninitialised variable holds.
pub record Source : Type 0 where
  pub fuel : ℕ
  pub bitmap : ℕ
  pub junk : ℕ

-- The page has no object left: another one takes its place.
unfoldable pub change_page : Source → ℕ → Slab → Act Slab
change_page source cache slab = do
  got ← get_partial_page source.fuel source.bitmap source.junk cache slab
  assign_cpu_slab cache (got).0 (got).1

-- FASTEST_PATH for an object at `ptr`, with the variable `page` as the function set it at first.
unfoldable pub fastest_path : Source → ℕ → ℕ → ℕ → Slab → Act (ℕ × Slab)
fastest_path source cache page ptr slab = do
  next ← follow ptr
  (if page == 0 then (λ m. fault) else do
    f ← lift (load_frame page)
    lift (store_frame page (record f { freelist = next; slab_inuse = u16 (f.slab_inuse + 1) }))
    let left = with_cpu cache (record (cpu_of cache slab) { freelist = next }) slab
    (if u16 (f.slab_inuse + 1) == f.slab_objects
        then (do changed ← change_page source cache left; pure (ptr, changed))
        else pure (ptr, left)))

-- FAST_PATH with two pages: the object that it takes is dropped, since the code goes on.
unfoldable pub drop_object : ℕ → Act (Unit {0})
drop_object page = do
  f ← lift (load_frame page)
  next ← follow f.freelist
  lift (store_frame page (record f { freelist = next; slab_inuse = u16 (f.slab_inuse + 1) }))
  if u16 (f.slab_inuse + 1) == f.slab_objects then lift (list_remove page) else pure tt

-- `ptr = page->freelist; page->freelist = *page->freelist; page->slab_inuse++`
unfoldable pub take_object : ℕ → Act ℕ
take_object page = do
  f ← lift (load_frame page)
  next ← follow f.freelist
  lift (store_frame page (record f { freelist = next; slab_inuse = u16 (f.slab_inuse + 1) }))
  pure f.freelist

-- SLOWEST_PATH, from the page that is requested on.
unfoldable pub use_page : ℕ → ℕ → Slab → Act (ℕ × Slab)
use_page cache page slab = do
  next ← assign_cpu_slab cache page slab
  ptr ← take_object page
  pure (ptr, next)

unfoldable pub slowest_path : Source → ℕ → Slab → Act (ℕ × Slab)
slowest_path source cache slab = do
  page ← request_page source.fuel source.bitmap cache (slab.caches cache)
  use_page cache page slab

-- FAST_PATH; `again` is the way back to FASTEST_PATH.
unfoldable pub fast_path : Source → ℕ → Slab → (Slab → Act (ℕ × Slab)) → Act (ℕ × Slab)
fast_path source cache slab again = do
  head ← lift (load_node (cpu_partial cache slab.cpu))
  (if head.next == 0 then slowest_path source cache slab else do
    assigned ← assign_cpu_slab cache head.next slab
    left ← lift (load_node (cpu_partial cache slab.cpu))
    (if left.next == 0
        then again assigned
        else do drop_object left.next; slowest_path source cache assigned))

-- From FASTEST_PATH on; `rounds` is the fuel for the way back.
unfoldable pub allocate_from : ℕ → Source → ℕ → ℕ → Slab → Act (ℕ × Slab)
allocate_from zero source cache page slab = λ m. spent
allocate_from (suc rounds) source cache page slab =
    let ptr = (cpu_of cache slab).freelist in
    if ptr == 0
    then fast_path source cache slab (allocate_from rounds source cache page)
    else fastest_path source cache page ptr slab

-- __slab_AllocateObject
unfoldable pub allocate_object : ℕ → Source → ℕ → Slab → Act (ℕ × Slab)
allocate_object rounds source cache slab =
    if cache == 0
    then (λ m. hang)
    else allocate_from rounds source cache (cpu_of cache slab).page slab

-- KM_AllocateStruct: the only index that does not panic is the one of the word behind
-- g_cachePointers.
unfoldable pub km_allocate_struct : ℕ → Source → ℕ → Slab → Act (ℕ × Slab)
km_allocate_struct rounds source id slab =
    if ltb id slab_max_block_order || ltb 16 id
    then (λ m. hang)
    else allocate_object rounds source (slab.pointers id) slab

unfoldable pub km_allocate : ℕ → Source → ℕ → ℕ → Slab → Act (ℕ × Slab)
km_allocate rounds source thread_size size slab =
    allocate_object rounds source (km_find_cache thread_size source.junk (u32 size) slab) slab
