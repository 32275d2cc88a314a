-- ===== src/Page/Take.antt =====
-- The head of PM_AllocatePages: the first page of a list is taken off it.
use cubik_os.Prelude.{
  ℕ, suc, ◌+◌, ◌-◌, ◌^◌, ◌≤◌, ◌<◌, ◌≡◌, refl, ◌≢◌, arith, ◌==◌, true, some, List, [], ◌∷◌, length,
  update, ap, ◌∙◌, u32, subst, if_true,
}
use cubik_os.Memory.{
  Frame, Store, ok, null, load_node-ok, store_frame, load_count, store_count, load_frame-ok,
}
use cubik_os.LinkedList.Chain.{Chain, IsApart, SameOutside, Chain-head}
use cubik_os.LinkedList.Remove.{Removed, list_remove-Removed}
use cubik_os.Page.Buddy.{handle, acquire_lock, release_lock, add_count, take_first}
use cubik_os.Page.Pool.{Pool, IsTaken, with_list, with_list_self, Pool-pop, popped-out}

-- After the first page `p` of list `m`, whose descriptor is `f`, has been taken.
pub record Taken (s : Store) (lists : ℕ → List ℕ) (m p : ℕ) (rest : List ℕ) (f : Frame)
    : Type 0 where
  pub after : Store
  pub run : take_first m s ≡ ok p after
  pub base : after.pf_freelist ≡ s.pf_freelist
  pub pool : Pool after (with_list lists m rest)
  pub taken : IsTaken after (with_list lists m rest) m p
  pub frame : after.frames p ≡ some f
  pub others : (a : ℕ) → a ≢ p → after.frames a ≡ s.frames a
  pub nodes : SameOutside (handle s m ∷ p ∷ rest) s.nodes after.nodes

module _ (s : Store) (lists : ℕ → List ℕ) (m p : ℕ) (rest : List ℕ) (f : Frame)
    (pool : Pool s lists) (m_le : m ≤ 10) (front : lists m ≡ p ∷ rest) (here : s.frames p ≡ some f)
    (is_free : f.free ≡ true) (unlocked : f.lock ≡ 0) (room : length (lists m) < 2 ^ 32) where
  Chain-here : Chain s.nodes null (handle s m) (p ∷ rest)
  Chain-here = subst (Chain s.nodes null (handle s m)) front (pool.chain m m_le)

  IsApart-here : IsApart (handle s m ∷ p ∷ rest)
  IsApart-here = subst (λ xs. IsApart (handle s m ∷ xs)) front (pool.apart m m_le)

  count_here : s.count m ≡ suc (length rest)
  count_here = pool.counted m m_le ∙ ap length front

  locked : Store
  locked = record s { frames = update s.frames p (some (record f { lock = 1 })) }

  counted : Store
  counted = record locked { count = update s.count m (u32 (s.count m + (2 ^ 32 - 1))) }

  acquired : acquire_lock p s ≡ ok tt locked
  unfolding acquire_lock store_frame locked
  acquired =
      let free_lock : (f.lock == 0) ≡ true = ground arith in rw (load_frame-ok s p here, free_lock)

  locked_frame : locked.frames p ≡ some (record f { lock = 1 })
  unfolding locked
  locked_frame = ground arith

  removed : Removed counted null (handle s m) p (p ∷ rest) rest
  unfolding counted locked
  removed = list_remove-Removed counted null (handle s m) p [] rest Chain-here IsApart-here

  done : Store
  done = record s {
    nodes = removed.nodes;
    frames = update locked.frames p (some (record f { lock = 0 }));
    count = update s.count m (u32 (s.count m + (2 ^ 32 - 1)));
  }

  take_first-run : take_first m s ≡ ok p done
  unfolding take_first release_lock store_frame add_count load_count store_count done counted locked
  take_first-run = rw (
    load_node-ok s (handle s m) Chain-here.0,
    acquired,
    load_frame-ok locked p locked_frame,
    if_true f.free _ _ is_free,
    removed.run,
    load_frame-ok (record counted { nodes = removed.nodes }) p locked_frame,
  )

  count_done : update s.count m (u32 (s.count m + (2 ^ 32 - 1))) ≡ update s.count m (length rest)
  count_done = ap (update s.count m) (omega (arith, count_here, ap length front))

  -- The first page leaves the list, its count goes down by one, and the page is the result.
  pub take_first-Taken : Taken s lists m p rest f
  unfolding done counted locked
  take_first-Taken = record {
    after = done;
    run = take_first-run;
    base = refl;
    pool =
        Pool-pop pool m p rest m_le front removed.nodes removed.chain removed.same _ _ count_done;
    taken = record {
      links =
          rw (with_list_self lists m rest)
            (removed.stale ∙ Chain-head s.nodes (handle s m) p rest Chain-here.1);
      out = popped-out pool m p rest m_le front removed.nodes removed.chain removed.same;
    };
    frame = ground arith;
    others = λ a ne. ground arith;
    nodes = removed.same;
  }
