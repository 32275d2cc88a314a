-- ===== src/Page/Allocate.antt =====
-- PM_AllocatePages on a pool of well-formed free lists.
use native.Mathlib.Bridge.{le_prop}
use cubik_os.Prelude.{
  ℕ, ◌-◌, ◌^◌, ◌≤◌, ◌<◌, ◌≡◌, arith, ◌==◌, ◌&&◌, leb, ltb, if◌then◌else◌, true, false, some, List,
  [], ◌∷◌, length, update, ap, ◌∙◌, subst, if_false,
}
use cubik_os.Memory.{Frame, Store, ok, store_frame, load_frame-ok}
use cubik_os.LinkedList.Chain.{has}
use cubik_os.Page.Buddy.{handle, find_order, set_used, pm_allocate_pages}
use cubik_os.Page.Pool.{Pool, with_list, Pool-frames}
use cubik_os.Page.Request.{find_order-some}
use cubik_os.Page.Expand.{buddy, half, IsUnused}
use cubik_os.Page.Take.{Taken, take_first-Taken}
use cubik_os.Page.Split.{Fits, buddy-ne, Unused, Split, expand_loop-Split}

-- The lists after a request of order `o` has been served from list `m`: the first page of list
-- `m` has left it, and every smaller list from `o` on has got one half of the splits.
abbrev pub served : (ℕ → List ℕ) → ℕ → ℕ → ℕ → List ℕ → ℕ → List ℕ
served lists o m p rest j =
    if leb o j && ltb j m then buddy p j ∷ [] else if m == j then rest else lists j

module _ (s : Store) (lists : ℕ → List ℕ) (o m p : ℕ) (rest : List ℕ) (f : Frame)
    (pool : Pool s lists) (o_le : o ≤ m) (m_le : m ≤ 10)
    (empty : (k : ℕ) → o ≤ k → k < m → lists k ≡ []) (front : lists m ≡ p ∷ rest)
    (here : s.frames p ≡ some f) (is_free : f.free ≡ true) (unlocked : f.lock ≡ 0)
    (order : f.order ≡ m) (fits : Fits p) (room : length (lists m) < 2 ^ 32)
    (unused : (k : ℕ) → o ≤ k → k < m → IsUnused s lists (buddy p k)) where
  pub record Allocated : Type 0 where
    pub after : Store
    pub after_lists : ℕ → List ℕ
    pub run : pm_allocate_pages o s ≡ ok p after
    pub pool_after : Pool after after_lists
    pub shape : (j : ℕ) → after_lists j ≡ served lists o m p rest j
    pub page : after.frames p ≡ some (record f { order = o; free = false; lock = 0 })
    pub halves :
        (j : ℕ) (lo : o ≤ j) (hi : j < m)
        → after.frames (buddy p j) ≡ some (half f (unused j lo hi).frame j)

  found : find_order (11 - o) o s.count ≡ some m
  found =
      find_order-some (11 - o) o m s.count o_le (omega arith)
        (λ k lo hi. pool.counted k (omega arith) ∙ ap length (empty k lo hi))
        (λ none_left. absurd (omega (arith, pool.counted m m_le, ap length front)))

  took : Taken s lists m p rest f
  took = take_first-Taken s lists m p rest f pool m_le front here is_free unlocked room

  out_of_front : (k : ℕ) → o ≤ k → k < m → has (buddy p k) (handle s m ∷ p ∷ rest) ≡ false
  out_of_front k lo hi =
      subst (λ xs. has (buddy p k) (handle s m ∷ xs) ≡ false) front ((unused k lo hi).out m m_le)

  unused_after : Unused took.after (with_list lists m rest) p o (m - o)
  unused_after k lo hi =
      let old = unused k lo (omega arith) in
      record {
        frame = old.frame;
        holds = took.others (buddy p k) (buddy-ne p k fits (omega arith)) ∙ old.holds;
        links = old.links;
        linked = took.nodes (buddy p k) (out_of_front k lo (omega arith)) ∙ old.linked;
        fresh = old.fresh;
        not_null = old.not_null;
        out = λ i le. ground (arith, took.base, old.out i le, out_of_front k lo (omega arith));
      }

  split : Split took.after (with_list lists m rest) p o (m - o) f unused_after
  split =
      expand_loop-Split (m - o) o m p took.after (with_list lists m rest) f took.pool took.taken
        (omega arith) m_le fits (λ k lo hi. ground (arith, empty k lo)) took.frame (omega arith)
        unlocked unused_after

  half_after :
      (j : ℕ) (lo : o ≤ j) (hi : j < m)
      → split.after.frames (buddy p j) ≡ some (half f (unused j lo hi).frame j)
  unfolding unused_after
  half_after j lo hi =
      split.halves j lo (omega arith)
      ∙ ap (λ h. some (half f (unused j lo h).frame j)) (le_prop _ _)

  marked : Store
  marked = record split.after {
    frames = update split.after.frames p (some (record f { order = o; free = false; lock = 0 }));
  }

  pm_allocate_pages-run : pm_allocate_pages o s ≡ ok p marked
  unfolding pm_allocate_pages set_used store_frame marked
  pm_allocate_pages-run =
      let in_range : ltb 10 o ≡ false = ground arith in
      rw (
        if_false (ltb 10 o) _ _ in_range,
        found,
        took.run,
        split.run,
        load_frame-ok split.after p split.first_half,
      )

  -- PM_AllocatePages on well-formed free lists, for order `o`: list `m` is the least from `o`
  -- on that is not empty, its first page is free, unlocked and of order `m`, and the
  -- descriptors of the upper halves are in no list and have no `next`. Then the result is that
  -- page, now a block of order `o` that is not free and unlocked; list `m` has lost it, each
  -- list from `o` below `m` holds the upper half of one split, which is free and has the
  -- address behind the lower half, and the lists are well formed.
  pub pm_allocate_pages-Allocated : Allocated
  unfolding marked
  pm_allocate_pages-Allocated = record {
    after = marked;
    after_lists = split.after_lists;
    run = pm_allocate_pages-run;
    pool_after = Pool-frames split.pool marked.frames;
    shape = λ j. ground (arith, split.shape j, empty j);
    page = ground arith;
    halves = λ j lo hi. ground (arith, half_after j lo hi, buddy-ne p j fits);
  }
