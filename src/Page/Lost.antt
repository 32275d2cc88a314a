-- ===== src/Page/Lost.antt =====
-- The first request after write_pages has put a block on empty free lists.
use cubik_os.Prelude.{
  ℕ, suc, ◌-◌, ◌≤◌, ◌≡◌, refl, ◌≢◌, arith, ◌∙◌, false, ◌==◌, ltb, if_false, none, some, update,
}
use cubik_os.Memory.{
  node, Frame, Store, ok, fault, null, load_frame-ok, load_frame-fault, load_node-ok, store_frame,
}
use cubik_os.Page.Buddy.{
  handle, acquire_lock, find_order, set_used, write_pages, take_first, pm_allocate_pages,
}
use cubik_os.Page.Request.{find_order-some}
use cubik_os.Page.Write.{written, IsNewBlock}
use cubik_os.Page.Cleared.{Cleared, expand_loop-Cleared}

module _ (s : Store) (p address : ℕ) (old : ℕ → Frame) (o : ℕ) (done : Cleared s p address old o)
    (o_le : o ≤ 7) where
  found : find_order (11 - o) o done.wrote.after.count ≡ some 9
  found =
      find_order-some (11 - o) o 9 done.wrote.after.count (omega arith) (omega arith)
        (λ k lo hi. done.wrote.pool.counted k (omega arith) ∙ ground arith)
        (λ none_left. absurd (omega (arith, done.wrote.pool.counted 9 (omega arith))))

  final : Store
  final = record done.after {
    frames =
        update done.after.frames p
          (some (record (written old address 0) { order = suc o; free = false; lock = 0 }));
  }

  pm_allocate_pages-final : pm_allocate_pages o done.wrote.after ≡ ok p final
  unfolding pm_allocate_pages set_used store_frame final
  pm_allocate_pages-final =
      let in_range : ltb 10 o ≡ false = ground arith in
      rw
        (
          if_false (ltb 10 o) _ _ in_range,
          found,
          done.take,
          done.run,
          load_frame-ok done.after p done.page,
        )
        refl

  final-absent : p ≢ null → s.frames null ≡ none → final.frames null ≡ none
  unfolding final
  final-absent some_page absent = ground (arith, some_page) ∙ done.absent absent

  final-fault : final.frames null ≡ none → pm_allocate_pages 9 final ≡ fault
  unfolding pm_allocate_pages find_order take_first acquire_lock final
  final-fault absent =
      let here : (final.count 9 == 0) ≡ false = ground (arith, done.one) in
      rw (here, load_node-ok final (handle final 9) done.empty, load_frame-fault final null absent)
        refl

-- Free lists that were empty until write_pages put a block of 4 MiB on them are damaged by the
-- first request of an order `o` up to 7: the result is a block of order `o + 1`, no descriptor is
-- left on list 9 although its counter says 1, so that the half of 2 MiB that the first split put
-- there is lost, and a request of order 9 that follows reads through NULL. The descriptors of the
-- block stand one behind the other, those that the splits use are in no list and have no `next`,
-- the first is unlocked, and there is no descriptor at NULL.
pub write_pages-loses :
    (s : Store) (p address : ℕ) (old : ℕ → Frame) (o : ℕ)
    → IsNewBlock s p old o
    → o ≤ 7
    → s.frames null ≡ none
    → (s1 : Store) × (write_pages p address s ≡ ok tt s1)
      × (s2 : Store) × (pm_allocate_pages o s1 ≡ ok p s2)
      × (s2.frames p
          ≡ some (record (written old address 0) { order = suc o; free = false; lock = 0 }))
      × (s2.count 9 ≡ 1)
      × (s2.nodes (handle s2 9) ≡ some (node null null))
      × (pm_allocate_pages 9 s2 ≡ fault)
unfolding final
write_pages-loses s p address old o new o_le absent =
    let done = expand_loop-Cleared s p address old o new o_le in
    (
      done.wrote.after,
      done.wrote.run,
      final s p address old o done o_le,
      pm_allocate_pages-final s p address old o done o_le,
      ground arith,
      done.one,
      done.empty,
      final-fault s p address old o done o_le
          (final-absent s p address old o done o_le new.some_page absent),
    )
