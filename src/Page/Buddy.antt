-- ===== src/Page/Buddy.antt =====
-- Kernel/src/mm/page.c: the free lists, splitting and combining of blocks, allocation and release.
use cubik_os.Prelude.{
  ℕ, zero, suc, ◌+◌, ◌-◌, ◌*◌, ◌/◌, ◌%◌, ◌^◌, Bool, true, false, ◌||◌, ltb, ◌==◌, if◌then◌else◌,
  Option, none, some, u32, u64,
}
use cubik_os.Memory.{
  Store, Cmd, null, ok, hang, spent, pure, and_then, ◌>>=◌, ◌>>◌, load_node, load_frame,
  store_frame, load_count, store_count,
}
use cubik_os.LinkedList.Defs.{list_remove, list_append}
use cubik_os.Page.Size.{
  page_max_order, page_max_size, arch_page_size, page_size_align, page_size_order,
}

-- sizeof(pageframe_t) and sizeof(pageframe_list_t)
abbrev pub frame_size : ℕ
frame_size = 64

abbrev pub list_size : ℕ
list_size = 24

-- `&pf_freelist[order].handle`
abbrev pub handle : Store → ℕ → ℕ
handle s order = s.pf_freelist + order * list_size

unfoldable pub acquire_lock : ℕ → Cmd (Unit {0})
acquire_lock p = do
  f ← load_frame p
  if f.lock == 0 then store_frame p (record f { lock = 1 }) else λ _. hang

unfoldable pub release_lock : ℕ → Cmd (Unit {0})
release_lock p = do f ← load_frame p; store_frame p (record f { lock = 0 })

unfoldable pub is_order_aligned : ℕ → ℕ → Cmd Bool
is_order_aligned page order = do
  f ← load_frame page
  pure (f.addr % (2 ^ f.order * arch_page_size) == 0)

unfoldable pub list_append_order : ℕ → ℕ → Cmd (Unit {0})
list_append_order order p s = list_append (handle s order) p s

unfoldable pub add_count : ℕ → ℕ → Cmd (Unit {0})
add_count order n = do c ← load_count order; store_count order (u32 (c + n))

-- One round of the loop of write_pages.
unfoldable pub write_page : ℕ → ℕ → ℕ → Cmd (Unit {0})
write_page pages address idx = do
  f ← load_frame (u64 (pages + idx * frame_size))
  store_frame (u64 (pages + idx * frame_size))
      (record f { free = true; addr = u64 (address + idx * arch_page_size) })

unfoldable pub write_loop : ℕ → ℕ → ℕ → ℕ → Cmd (Unit {0})
write_loop zero idx pages address = pure tt
write_loop (suc n) idx pages address = do
  write_page pages address idx
  write_loop n (idx + 1) pages address

-- The block gets the largest order, and goes to the list one below.
unfoldable pub write_pages : ℕ → ℕ → Cmd (Unit {0})
write_pages pages address = do
  write_loop 1024 0 pages address
  f ← load_frame pages
  store_frame pages (record f { order = page_max_order })
  list_append_order (page_max_order - 1) pages
  add_count (page_max_order - 1) 1

-- `--page->order` in a field of four bits, and the new descriptor in the middle of the block.
unfoldable pub pm_expand_page : ℕ → Cmd ℕ
pm_expand_page page = do
  f ← load_frame page
  if f.order == 0 then pure null else do
    acquire_lock page
    list_remove page
    g ← load_frame page
    let order = (g.order + 15) % 16
    store_frame page (record g { order = order })
    let new_page = u64 (page + 2 ^ order * frame_size)
    b ← load_frame new_page
    store_frame new_page
        (record b { order = order; addr = u64 (g.addr + 2 ^ order * arch_page_size); free = true })
    list_append_order order new_page
    add_count order 1
    release_lock page
    pure page

-- The search of PM_AllocatePages for a list with a page, `n` lists from `m_order` on.
unfoldable pub find_order : ℕ → ℕ → (ℕ → ℕ) → Option ℕ
find_order zero m_order count = none
find_order (suc n) m_order count =
    let rest = find_order n (m_order + 1) count in if count m_order == 0 then rest else some m_order

-- `while (m_order > order)`, with the difference as the count of rounds.
unfoldable pub expand_loop : ℕ → ℕ → Cmd ℕ
expand_loop zero page = pure page
expand_loop (suc n) page = do next ← pm_expand_page page; expand_loop n next

-- The first page of the list. One that is not free is tried again without end.
unfoldable pub take_first : ℕ → Cmd ℕ
take_first m_order s = and_then (load_node (handle s m_order) s) λ h. do
  acquire_lock h.next
  f ← load_frame h.next
  if f.free
      then (do add_count m_order (2 ^ 32 - 1); list_remove h.next; release_lock h.next; pure h.next)
      else (do release_lock h.next; λ _. hang)

unfoldable pub set_used : ℕ → Cmd (Unit {0})
set_used page = do f ← load_frame page; store_frame page (record f { free = false })

unfoldable pub pm_allocate_pages : ℕ → Cmd ℕ
pm_allocate_pages order s =
    if ltb page_max_order order
    then ok null s
    else elim (find_order (page_max_order + 1 - order) order s.count) [
      | none ↦ ok null s
      | some m_order ↦
          (do
            first ← take_first m_order
            page ← expand_loop (m_order - order) first
            set_used page
            pure page)
            s
    ]

-- The size is in bytes. `spent` stands for a page_size_order that does not return.
unfoldable pub pm_allocate : ℕ → Cmd ℕ
pm_allocate size =
    if ltb page_max_size size || (size == 0)
    then pure null
    else elim (page_size_order (page_size_align size / 4096)) [
      | none ↦ (λ _. spent)
      | some order ↦ pm_allocate_pages order
    ]

-- The neighbour's physical address is used as the address of its descriptor.
unfoldable pub pm_combine_page : ℕ → Cmd ℕ
pm_combine_page page = do
  f ← load_frame page
  let order_size = u32 (2 ^ f.order * arch_page_size)
  let is_aligned = f.addr % order_size == 0
  let new_page =
      if is_aligned then u64 (f.addr + order_size) else u64 (f.addr + 2 ^ 64 - order_size)
  g ← load_frame new_page
  if g.free
      then (do
        list_remove new_page
        let result = if is_aligned then page else new_page
        r ← load_frame result
        store_frame result (record r { order = (r.order + 1) % 16 })
        list_append_order ((r.order + 1) % 16) result
        pure result)
      else (do list_append_order f.order page; pure null)

-- `while (pf != NULL) pf = PM_CombinePage(pf)`, on fuel.
unfoldable pub combine_loop : ℕ → ℕ → Cmd (Unit {0})
combine_loop zero page = λ _. spent
combine_loop (suc n) page =
    if page == null then pure tt else do next ← pm_combine_page page; combine_loop n next

unfoldable pub pm_free_pages : ℕ → ℕ → Cmd (Unit {0})
pm_free_pages fuel page = if page == null then pure tt else do
  acquire_lock page
  f ← load_frame page
  store_frame page (record f { free = true })
  release_lock page
  combine_loop fuel page

-- What PM_MarkPagesUsed does with one descriptor.
unfoldable pub mark_used : ℕ → Cmd (Unit {0})
mark_used page = do
  acquire_lock page
  f ← load_frame page
  store_frame page (record f { free = false })
  list_remove page
  release_lock page
