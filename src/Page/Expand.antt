-- ===== src/Page/Expand.antt =====
-- PM_ExpandPage on a pool of well-formed free lists.
use cubik_os.Prelude.{
  ℕ, suc, ◌+◌, ◌*◌, ◌%◌, ◌^◌, ◌≤◌, ◌<◌, ◌≡◌, refl, ◌≢◌, arith, ◌==◌, true, false, Option, some,
  Option, List, ◌∷◌, length, update, ap, ◌∙◌, u32, u64,
}
use cubik_os.Memory.{
  Node, Frame, Store, ok, null, store_frame, load_count, store_count, load_frame-ok,
}
use cubik_os.LinkedList.Defs.{list_remove}
use cubik_os.LinkedList.Chain.{has, Chain, IsApart, SameOutside}
use cubik_os.LinkedList.Append.{linked, list_append-ok, linked-Chain, linked-SameOutside}
use cubik_os.Page.Size.{arch_page_size}
use cubik_os.Page.Buddy.{
  handle, frame_size, acquire_lock, release_lock, list_append_order, add_count, pm_expand_page,
}
use cubik_os.Page.Pool.{Pool, IsTaken, pushed, with_list-other, Pool-push, list_remove-again}

-- The descriptor in the middle of the block at `p` of order `k + 1`.
abbrev pub buddy : ℕ → ℕ → ℕ
buddy p k = u64 (p + 2 ^ k * frame_size)

-- A descriptor that can become the second half: in no list, and with no `next` of an older list.
pub record IsUnused (s : Store) (lists : ℕ → List ℕ) (q : ℕ) : Type 0 where
  pub frame : Frame
  pub holds : s.frames q ≡ some frame
  pub links : Node
  pub linked : s.nodes q ≡ some links
  pub fresh : links.next ≡ null
  pub not_null : q ≢ null
  pub out : (k : ℕ) → k ≤ 10 → has q (handle s k ∷ lists k) ≡ false

-- The second half as it goes to its list.
abbrev pub half : Frame → Frame → ℕ → Frame
half f b k = record b { order = k; addr = u64 (f.addr + 2 ^ k * arch_page_size); free = true }

-- The store `s` with the nodes `g` and the counters `c`, and descriptors of its own.
abbrev pub shaded : Store → (ℕ → Option Frame) → (ℕ → Option Node) → (ℕ → ℕ) → Store
shaded s frames g c = record s { frames = frames; nodes = g; count = c }

-- From the nodes `g` and the counters `c`, LinkedListRemove of `p` leads to the nodes of `s`.
abbrev pub Leads : Store → ℕ → (ℕ → Option Node) → (ℕ → ℕ) → Type 0
Leads s p g c =
    (frames : ℕ → Option Frame)
    → list_remove p (shaded s frames g c) ≡ ok tt (shaded s frames s.nodes c)

-- A page that has just left a list: LinkedListRemove of it changes nothing.
pub IsTaken-Leads :
    {s : Store} {lists : ℕ → List ℕ} {p : ℕ} (m : ℕ)
    → Pool s lists
    → IsTaken s lists m p
    → m ≤ 10
    → (c : ℕ → ℕ) → Leads s p s.nodes c
IsTaken-Leads {s} {lists} {p} m pool taken m_le c frames =
    list_remove-again (shaded s frames s.nodes c) (handle s m) p (lists m) (pool.chain m m_le)
      (pool.apart m m_le) taken.links

-- After the split of `p`, whose descriptor was `f`, into two blocks of order `k`. The counters do
-- not matter for what it does, nor do the nodes from which LinkedListRemove leads to those of `s`.
pub record Expanded (s : Store) (lists : ℕ → List ℕ) (p k : ℕ) (f b : Frame) : Type 0 where
  pub after : Store
  pub run : pm_expand_page p s ≡ ok p after
  pub shadow :
      (g : ℕ → Option Node) (c : ℕ → ℕ)
      → Leads s p g c
      → pm_expand_page p (record s { nodes = g; count = c })
        ≡ ok p (record after { count = update c k (u32 (c k + 1)) })
  pub base : after.pf_freelist ≡ s.pf_freelist
  pub pool : Pool after (pushed lists k (buddy p k))
  pub kept : after.nodes p ≡ s.nodes p
  pub out : (j : ℕ) → j ≤ 10 → has p (handle s j ∷ pushed lists k (buddy p k) j) ≡ false
  pub first_half : after.frames p ≡ some (record f { order = k; lock = 0 })
  pub second_half : after.frames (buddy p k) ≡ some (half f b k)
  pub others : (a : ℕ) → a ≢ p → a ≢ buddy p k → after.frames a ≡ s.frames a
  pub nodes : SameOutside (buddy p k ∷ handle s k ∷ lists k) s.nodes after.nodes

module _ (s : Store) (lists : ℕ → List ℕ) (m p k : ℕ) (f : Frame) (pool : Pool s lists)
    (taken : IsTaken s lists m p) (unused : IsUnused s lists (buddy p k)) (m_le : m ≤ 10)
    (k_lt : k < 10) (here : s.frames p ≡ some f) (order : f.order ≡ suc k) (unlocked : f.lock ≡ 0)
    (apart : buddy p k ≢ p) (room : suc (length (lists k)) < 2 ^ 32) where
  open unused use {frame as b}

  Chain-k : Chain s.nodes null (handle s k) (lists k)
  Chain-k = pool.chain k (omega arith)

  new_nodes : ℕ → Option Node
  new_nodes = linked s.nodes null (handle s k) (buddy p k) unused.links.next (lists k)

  IsApart-k : IsApart (buddy p k ∷ handle s k ∷ lists k)
  IsApart-k = record {
    distinct = ground (arith, unused.out k, (pool.apart k (omega arith)).distinct);
    no_null = ground (arith, unused.not_null, (pool.apart k (omega arith)).no_null);
  }

  locked : ℕ → Option Frame
  locked = update s.frames p (some (record f { lock = 1 }))

  filled : ℕ → Option Frame
  filled =
      update (update locked p (some (record f { lock = 1; order = k }))) (buddy p k)
        (some (half f b k))

  done : (ℕ → ℕ) → Store
  done c = record s {
    nodes = new_nodes;
    frames = update filled p (some (record f { order = k; lock = 0 }));
    count = update c k (u32 (c k + 1));
  }

  locked_frame : locked p ≡ some (record f { lock = 1 })
  unfolding locked
  locked_frame = ground arith

  second_frame : update locked p (some (record f { lock = 1; order = k })) (buddy p k) ≡ some b
  unfolding locked
  second_frame = ground (arith, unused.holds)

  filled_frame : filled p ≡ some (record f { lock = 1; order = k })
  unfolding filled
  filled_frame = ground arith

  pm_expand_page-shadow :
      (g : ℕ → Option Node) (c : ℕ → ℕ)
      → Leads s p g c
      → pm_expand_page p (record s { nodes = g; count = c }) ≡ ok p (done c)
  unfolding pm_expand_page acquire_lock release_lock store_frame load_count store_count
      list_append_order add_count done filled locked new_nodes
  pm_expand_page-shadow g c leads =
      let more : (f.order == 0) ≡ false = ground arith in
      let free_lock : (f.lock == 0) ≡ true = ground arith in
      let lower : (f.order + 15) % 16 ≡ k = omega arith in
      rw (
        load_frame-ok (record s { nodes = g; count = c }) p here,
        more,
        load_frame-ok (record s { nodes = g; count = c }) p here,
        free_lock,
        leads (update s.frames p (some (record f { lock = 1 }))),
        load_frame-ok (shaded s locked s.nodes c) p locked_frame,
        lower,
        load_frame-ok
            (shaded s (update locked p (some (record f { lock = 1; order = k }))) s.nodes c)
            (buddy p k) second_frame,
        list_append-ok (shaded s filled s.nodes c) null (handle s k) (buddy p k) unused.links
            (lists k) Chain-k IsApart-k unused.linked,
        load_frame-ok (shaded s filled new_nodes (update c k (u32 (c k + 1)))) p filled_frame,
      )

  counted : update s.count k (u32 (s.count k + 1)) ≡ update s.count k (suc (length (lists k)))
  counted = ap (update s.count k) (omega (arith, pool.counted k (omega arith)))

  new-Chain : Chain new_nodes null (handle s k) (buddy p k ∷ lists k)
  unfolding new_nodes
  new-Chain =
      linked-Chain s.nodes null (handle s k) (buddy p k) unused.links.next (lists k) Chain-k
        IsApart-k (λ _. unused.fresh)

  new_same : SameOutside (buddy p k ∷ handle s k ∷ lists k) s.nodes new_nodes
  unfolding new_nodes
  new_same = linked-SameOutside s.nodes null (handle s k) (buddy p k) unused.links.next (lists k)

  -- PM_ExpandPage on an unlocked block of order `k + 1` that has just left list `m` of
  -- well-formed free lists, where the descriptor in its middle is in no list and has no
  -- `next`: the page keeps the lower half, and the upper half goes, free and with its own
  -- address, to the front of list `k`. No other list changes, and the lists are well formed. It does
  -- the same to the nodes and the descriptors with any counters, and from any links from which
  -- LinkedListRemove of the page leads to these.
  pub pm_expand_page-Expanded : Expanded s lists p k f b
  unfolding done filled locked
  pm_expand_page-Expanded = record {
    after = done s.count;
    run = pm_expand_page-shadow s.nodes s.count (IsTaken-Leads m pool taken m_le s.count);
    shadow = pm_expand_page-shadow;
    base = refl;
    pool =
        Pool-push pool k (buddy p k) (omega arith) new_nodes new-Chain new_same unused.out
          unused.not_null _ _ counted;
    kept = new_same p (ground (arith, taken.out k));
    out = λ j le. ground (arith, taken.out j le, taken.out k);
    first_half = ground arith;
    second_half = ground arith;
    others = λ a not_first not_second. ground arith;
    nodes = new_same;
  }

-- A split below the list that the page has left keeps the page's links.
pub Expanded-IsTaken :
    {s : Store} {lists : ℕ → List ℕ} {p k : ℕ} {f b : Frame} (m : ℕ)
    → (step : Expanded s lists p k f b) → IsTaken s lists m p
    → k < m
    → IsTaken step.after (pushed lists k (buddy p k)) m p
Expanded-IsTaken {s} {lists} {p} {k} m step taken lt =
    let other : ¬ (k ≡ m) = omega arith in
    record {
      links =
          rw (step.base, with_list-other lists k (buddy p k ∷ lists k) m other)
            (step.kept ∙ taken.links);
      out = λ j le. rw step.base (step.out j le);
    }
