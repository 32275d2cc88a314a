-- ===== src/Page/Cleared.antt =====
-- The splits of a block that write_pages has put on empty free lists.
use native.Mathlib.Nat.{one-le-pow}
use cubik_os.Prelude.{
  ℕ, suc, ◌+◌, ◌-◌, ◌^◌, ◌≤◌, ◌<◌, ◌≡◌, refl, ◌≢◌, arith, ◌∙◌, ap, Option, none, some, List, [],
  update, u32, subst, sym, inr, ◌⊎◌,
}
use cubik_os.Memory.{Node, node, Frame, Store, ok, null, set_next, set_prev, load_node, store_node}
use cubik_os.LinkedList.Defs.{list_remove}
use cubik_os.LinkedList.Chain.{Chain}
use cubik_os.Page.Buddy.{handle, take_first, expand_loop}
use cubik_os.Page.Pool.{Pool, IsTaken, with_list, pushed, Pool-pop}
use cubik_os.Page.Expand.{
  buddy, IsUnused, Leads, Expanded, pm_expand_page-Expanded, Expanded-IsTaken,
}
use cubik_os.Page.Take.{Taken, take_first-Taken}
use cubik_os.Page.Split.{
  buddy-exact, buddy-ne, buddy-lt, two-pow-lt, Unused, Split, expand_loop-Split,
}
use cubik_os.Page.Write.{written, Written, write_pages-Written, no_list, IsUnused-kept, IsNewBlock}

-- After the block has left list 9 and has been split down to order `o + 1`.
pub record Cleared (s : Store) (p address : ℕ) (old : ℕ → Frame) (o : ℕ) : Type 0 where
  pub wrote : Written s no_list p address old
  pub taken : Store
  pub take : take_first 9 wrote.after ≡ ok p taken
  pub after : Store
  pub run : expand_loop (9 - o) p taken ≡ ok p after
  pub page : after.frames p ≡ some (record (written old address 0) { order = suc o; lock = 0 })
  pub one : after.count 9 ≡ 1
  pub empty : after.nodes (handle after 9) ≡ some (node null null)
  pub absent : s.frames null ≡ none → after.frames null ≡ none

module _ (s : Store) (p address : ℕ) (old : ℕ → Frame) (o : ℕ) (new : IsNewBlock s p old o)
    (o_le : o ≤ 7) where
  open new use {pool, fits, block, links, linked, fresh, some_page, out, unlocked, unused}

  wrote : Written s no_list p address old
  wrote =
      write_pages-Written s no_list p address old links pool fits block linked (λ _. fresh)
        some_page out (omega arith)

  abbrev lists1 : ℕ → List ℕ
  lists1 = pushed no_list 9 p

  abbrev frame1 : Frame
  frame1 = record (written old address 0) { order = 10 }

  took : Taken wrote.after lists1 9 p [] frame1
  took =
      take_first-Taken wrote.after lists1 9 p [] frame1 wrote.pool (omega arith) refl wrote.largest
        refl unlocked (omega arith)

  abbrev lists2 : ℕ → List ℕ
  lists2 = with_list lists1 9 []

  -- The descriptor in the middle of the block of order `k + 1` is one of those written.
  middle : (k : ℕ) → k < 10 → took.after.frames (buddy p k) ≡ some (written old address (2 ^ k))
  middle k lt =
      took.others (buddy p k) (buddy-ne p k fits lt)
      ∙ ap wrote.after.frames (buddy-exact p k fits lt)
      ∙ wrote.pages (2 ^ k) (one-le-pow k 2 (omega arith)) (omega (arith, two-pow-lt k 10 lt))

  unused2 : (k : ℕ) → o < k → k < 10 → IsUnused took.after lists2 (buddy p k)
  unused2 k lo hi =
      let other = buddy-ne p k fits hi in
      let far = (unused k lo hi).out in
      IsUnused-kept (written old address (2 ^ k)) (unused k lo hi) (middle k hi)
        (took.nodes (buddy p k) (ground (arith, wrote.base, far 9, other))
          ∙ wrote.nodes (buddy p k) (ground (arith, far 9, other)))
        (λ j le. ground (arith, took.base, wrote.base, far j le, other))

  -- The first split puts the upper half on list 9, which the page has just left.
  step9 : Expanded took.after lists2 p 9 frame1 (unused2 9 (omega arith) (omega arith)).frame
  step9 =
      pm_expand_page-Expanded took.after lists2 9 p 9 frame1 took.pool took.taken
        (unused2 9 (omega arith) (omega arith)) (omega arith) (omega arith) took.frame refl unlocked
        (buddy-ne p 9 fits (omega arith)) (omega arith)

  abbrev frame9 : Frame
  frame9 = record frame1 { order = 9; lock = 0 }

  abbrev lists3 : ℕ → List ℕ
  lists3 = with_list (pushed lists2 9 (buddy p 9)) 9 []

  -- The second one takes the page out of list 9 once more, and with it the half.
  emptied : ℕ → Option Node
  emptied = update step9.after.nodes (handle step9.after 9) (some (node null null))

  cleared : Store
  cleared = record step9.after { nodes = emptied; count = update step9.after.count 9 0 }

  cleared-Pool : Pool cleared lists3
  unfolding cleared emptied
  cleared-Pool =
      Pool-pop step9.pool 9 (buddy p 9) [] (omega arith) refl emptied (ground arith)
        (λ a far. ground (arith, far)) step9.after.frames _ refl

  p_links : step9.after.nodes p ≡ some (node (handle step9.after 9) null)
  p_links = rw step9.base (step9.kept ∙ took.taken.links)

  p_apart : p ≢ handle step9.after 9
  p_apart = ground (arith, step9.base, took.base, wrote.base, out 9 (omega arith))

  cleared-IsTaken : IsTaken cleared lists3 9 p
  unfolding cleared emptied
  cleared-IsTaken = record {
    links = ground (arith, p_links, p_apart);
    out = λ j le. ground (arith, step9.base, step9.out j le);
  }

  cleared-Leads : (c : ℕ → ℕ) → Leads cleared p step9.after.nodes c
  unfolding cleared emptied list_remove set_next set_prev load_node store_node
  cleared-Leads c frames = ground (
    arith,
    p_links,
    (step9.pool.chain 9 (omega arith)).0,
    (step9.pool.apart 9 (omega arith)).no_null,
  )

  unused3 : (k : ℕ) → o < k → k < 9 → IsUnused cleared lists3 (buddy p k)
  unfolding cleared emptied
  unused3 k lo hi =
      let other : buddy p k ≢ buddy p 9 = omega (arith, buddy-lt p k 9 fits hi (omega arith)) in
      let far = (unused2 k lo (omega arith)).out in
      IsUnused-kept (written old address (2 ^ k)) (unused2 k lo (omega arith))
        (step9.others (buddy p k) (buddy-ne p k fits (omega arith)) other ∙ middle k (omega arith))
        (ground (arith, step9.base, far 9 (omega arith), step9.nodes (buddy p k), other))
        (λ j le. ground (arith, step9.base, far j le, other))

  step8 : Expanded cleared lists3 p 8 frame9 (unused3 8 (omega arith) (omega arith)).frame
  unfolding cleared
  step8 =
      pm_expand_page-Expanded cleared lists3 9 p 8 frame9 cleared-Pool cleared-IsTaken
        (unused3 8 (omega arith) (omega arith)) (omega arith) (omega arith) step9.first_half refl
        refl (buddy-ne p 8 fits (omega arith)) (omega arith)

  abbrev lists4 : ℕ → List ℕ
  lists4 = pushed lists3 8 (buddy p 8)

  abbrev frame8 : Frame
  frame8 = record frame9 { order = 8; lock = 0 }

  unused4 : Unused step8.after lists4 p (suc o) (7 - o)
  unused4 k lo hi =
      let other : buddy p k ≢ buddy p 8 =
        omega (arith, buddy-lt p k 8 fits (omega arith) (omega arith)) in
      let before = unused3 k lo (omega arith) in
      let far = before.out in
      IsUnused-kept before.frame before
        (step8.others (buddy p k) (buddy-ne p k fits (omega arith)) other ∙ before.holds)
        (step8.nodes (buddy p k) (ground (arith, far 8 (omega arith), other)))
        (λ j le. ground (arith, step8.base, far j le, far 8 (omega arith), other))

  rest : Split step8.after lists4 p (suc o) (7 - o) frame8 unused4
  rest =
      expand_loop-Split (7 - o) (suc o) 9 p step8.after lists4 frame8 step8.pool
        (Expanded-IsTaken 9 step8 cleared-IsTaken (omega arith)) (omega arith) (omega arith) fits
        (λ k lo hi. ground arith) step8.first_half (omega arith) refl unused4

  -- The counters before the last splits, and the splits with them.
  counts8 : ℕ → ℕ
  counts8 = update step9.after.count 8 (u32 (step9.after.count 8 + 1))

  counted :
      (c : ℕ → ℕ) × (expand_loop (7 - o) p (record step8.after { count = counts8 })
        ≡ ok p (record rest.after { count = c }))
      × ((j : ℕ) → (j < suc o) ⊎ (suc o + (7 - o) ≤ j) → c j ≡ counts8 j)
  counted = rest.recounted counts8

  expand_loop-run :
      expand_loop (9 - o) p took.after ≡ ok p (record rest.after { count = (counted).0 })
  unfolding expand_loop cleared counts8
  expand_loop-run =
      let rounds : 9 - o ≡ suc (suc (7 - o)) = omega arith in
      rw
        (
          rounds,
          step9.run,
          step8.shadow step9.after.nodes step9.after.count (cleared-Leads step9.after.count),
        )
        (counted).1

  one_left : (counted).0 9 ≡ 1
  unfolding counts8
  one_left = (counted).2 9 (inr (omega arith)) ∙ ground (arith, step9.pool.counted 9 (omega arith))

  nothing_left : rest.after.nodes (handle rest.after 9) ≡ some (node null null)
  nothing_left =
      subst (Chain rest.after.nodes null (handle rest.after 9)) {y = []}
        (rest.shape 9 ∙ ground arith) (rest.pool.chain 9 (omega arith))

  still_absent : s.frames null ≡ none → rest.after.frames null ≡ none
  unfolding cleared
  still_absent absent =
      let first : null ≢ p = λ e. some_page (sym e) in
      let later : (k : ℕ) → o < k → k < 10 → null ≢ buddy p k =
        λ k lo hi e. (unused k lo hi).not_null (sym e) in
      rest.others null first (λ k lo hi. later k lo (omega arith))
      ∙ step8.others null first (later 8 (omega arith) (omega arith))
      ∙ step9.others null first (later 9 (omega arith) (omega arith))
      ∙ took.others null first
      ∙ wrote.others null (λ i lt e. some_page (omega arith))
      ∙ absent

  -- The half that the first split puts on list 9 is lost in the second, but still counted.
  pub expand_loop-Cleared : Cleared s p address old o
  expand_loop-Cleared = record {
    wrote = wrote;
    taken = took.after;
    take = took.run;
    after = record rest.after { count = (counted).0 };
    run = expand_loop-run;
    page = rest.first_half;
    one = one_left;
    empty = nothing_left;
    absent = still_absent;
  }
