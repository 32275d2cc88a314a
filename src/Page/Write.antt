-- ===== src/Page/Write.antt =====
-- The descriptors and the list that write_pages leaves of a block of 4 MiB.
use cubik_os.Prelude.{
  ℕ, zero, suc, ◌+◌, ◌*◌, ◌^◌, ◌≤◌, ◌<◌, ◌≡◌, refl, ◌≢◌, arith, ◌∙◌, ap, true, false, Option, some,
  List, [], ◌∷◌, length, update, u32, u64, subst, ℕ_discrete,
}
use cubik_os.Memory.{
  Node, Frame, Store, ok, null, load_frame-ok, store_frame, load_count, store_count,
}
use cubik_os.LinkedList.Chain.{has, SameOutside}
use cubik_os.LinkedList.Append.{Appended, list_append-Appended}
use cubik_os.Page.Buddy.{handle, write_page, write_loop, write_pages, list_append_order, add_count}
use cubik_os.Page.Pool.{Pool, pushed, Pool-push}
use cubik_os.Page.Expand.{buddy, IsUnused}
use cubik_os.Page.Split.{Fits}

abbrev pub no_list : ℕ → List ℕ
no_list k = []

-- A descriptor stays unused while its node is kept and no list gets it.
pub IsUnused-kept :
    {s s' : Store} {lists lists' : ℕ → List ℕ} {q : ℕ} (f : Frame)
    → IsUnused s lists q
    → s'.frames q ≡ some f
    → s'.nodes q ≡ s.nodes q
    → ((k : ℕ) → k ≤ 10 → has q (handle s' k ∷ lists' k) ≡ false)
    → IsUnused s' lists' q
IsUnused-kept f old holds same out = record {
  frame = f;
  holds = holds;
  links = old.links;
  linked = same ∙ old.linked;
  fresh = old.fresh;
  not_null = old.not_null;
  out = out;
}

-- A block whose descriptors stand from `p` on, before write_pages on empty free lists: the first one
-- and those in the middle of the splits down to order `o + 1` are in no list and have no `next`.
pub record IsNewBlock (s : Store) (p : ℕ) (old : ℕ → Frame) (o : ℕ) : Type 0 where
  pub pool : Pool s no_list
  pub fits : Fits p
  pub block : (i : ℕ) → i < 1024 → s.frames (p + i * 64) ≡ some (old i)
  pub links : Node
  pub linked : s.nodes p ≡ some links
  pub fresh : links.next ≡ null
  pub some_page : p ≢ null
  pub out : (k : ℕ) → k ≤ 10 → has p (handle s k ∷ []) ≡ false
  pub unlocked : (old 0).lock ≡ 0
  pub unused : (k : ℕ) → o < k → k < 10 → IsUnused s no_list (buddy p k)

-- The descriptor `i` of the block at `address`, as the loop writes it.
abbrev pub written : (ℕ → Frame) → ℕ → ℕ → Frame
written old address i = record (old i) { free = true; addr = u64 (address + i * 4096) }

-- After the rounds from `idx` on, `n` of them.
record Looped (s : Store) (p address : ℕ) (old : ℕ → Frame) (n idx : ℕ) : Type 0 where
  frames : ℕ → Option Frame
  run : write_loop n idx p address s ≡ ok tt (record s { frames = frames })
  done : (i : ℕ) → idx ≤ i → i < idx + n → frames (p + i * 64) ≡ some (written old address i)
  others : (a : ℕ) → ((i : ℕ) → idx ≤ i → i < idx + n → a ≢ p + i * 64) → frames a ≡ s.frames a

abbrev round_of : Store → ℕ → ℕ → (ℕ → Frame) → ℕ → Store
round_of s p address old idx = record s {
  frames = update s.frames (p + idx * 64) (some (written old address idx));
}

write_page-ok :
    (s : Store) (p address : ℕ) (old : ℕ → Frame) (idx : ℕ)
    → p + idx * 64 < 2 ^ 64
    → s.frames (p + idx * 64) ≡ some (old idx)
    → write_page p address idx s ≡ ok tt (round_of s p address old idx)
unfolding write_page store_frame
write_page-ok s p address old idx lt here =
    let exact : u64 (p + idx * 64) ≡ p + idx * 64 = omega arith in
    rw (write_page, exact, load_frame-ok s (p + idx * 64) here) refl

write_loop-Looped :
    (n idx : ℕ) (s : Store) (p address : ℕ) (old : ℕ → Frame)
    → p + (idx + n) * 64 ≤ 2 ^ 64
    → ((i : ℕ) → idx ≤ i → i < idx + n → s.frames (p + i * 64) ≡ some (old i))
    → Looped s p address old n idx
unfolding write_loop
write_loop-Looped zero idx s p address old fits block = record {
  frames = s.frames;
  run = refl;
  done = λ i lo hi. absurd (omega arith);
  others = λ a far. refl;
}
write_loop-Looped (suc n) idx s p address old fits block =
    let rest =
      write_loop-Looped n (idx + 1) (round_of s p address old idx) p address old (omega arith)
        (λ i lo hi. ground (arith, block i)) in
    record {
      frames = rest.frames;
      run =
          rw
            (write_page-ok s p address old idx (omega arith)
              (block idx (omega arith) (omega arith)))
            rest.run;
      done = λ i lo hi. elim (ℕ_discrete idx i) [
        | yes same ↦
            subst (λ k. rest.frames (p + k * 64) ≡ some (written old address k)) same
              (rest.others (p + idx * 64) (λ k lo' hi' e. omega arith) ∙ ground arith)
        | no other ↦ rest.done i (omega arith) (omega arith)
      ];
      others = λ a far.
          rest.others a (λ i lo hi. far i (omega arith) (omega arith))
          ∙ ground (arith, far idx (omega arith) (omega arith));
    }

-- What write_pages leaves of the block at `p`.
pub record Written (s : Store) (lists : ℕ → List ℕ) (p address : ℕ) (old : ℕ → Frame) : Type 0 where
  pub after : Store
  pub run : write_pages p address s ≡ ok tt after
  pub base : after.pf_freelist ≡ s.pf_freelist
  pub pool : Pool after (pushed lists 9 p)
  pub largest : after.frames p ≡ some (record (written old address 0) { order = 10 })
  pub pages : (i : ℕ) → 1 ≤ i → i < 1024 → after.frames (p + i * 64) ≡ some (written old address i)
  pub others : (a : ℕ) → ((i : ℕ) → i < 1024 → a ≢ p + i * 64) → after.frames a ≡ s.frames a
  pub nodes : SameOutside (p ∷ handle s 9 ∷ lists 9) s.nodes after.nodes

module _ (s : Store) (lists : ℕ → List ℕ) (p address : ℕ) (old : ℕ → Frame) (n : Node)
    (pool : Pool s lists) (fits : Fits p)
    (block : (i : ℕ) → i < 1024 → s.frames (p + i * 64) ≡ some (old i))
    (linked : s.nodes p ≡ some n) (fresh : lists 9 ≡ [] → n.next ≡ null) (some_page : p ≢ null)
    (out : (k : ℕ) → k ≤ 10 → has p (handle s k ∷ lists k) ≡ false)
    (room : length (lists 9) + 1 < 2 ^ 32) where
  looped : Looped s p address old 1024 0
  looped = write_loop-Looped 1024 0 s p address old (omega arith) (λ i lo hi. block i hi)

  first_frame : looped.frames p ≡ some (written old address 0)
  first_frame = ap looped.frames (omega arith) ∙ looped.done 0 (omega arith) (omega arith)

  filled : Store
  filled = record s {
    frames = update looped.frames p (some (record (written old address 0) { order = 10 }));
  }

  appended : Appended filled null (handle s 9) p (lists 9)
  unfolding filled
  appended =
      list_append-Appended filled null (handle s 9) p n (lists 9) (pool.chain 9 (omega arith))
        (record {
          distinct = ground (arith, out 9 (omega arith), (pool.apart 9 (omega arith)).distinct);
          no_null = ground (arith, some_page, (pool.apart 9 (omega arith)).no_null);
        })
        linked fresh

  done : Store
  done = record filled { nodes = appended.nodes; count = update s.count 9 (u32 (s.count 9 + 1)) }

  write_pages-run : write_pages p address s ≡ ok tt done
  unfolding write_pages store_frame list_append_order add_count load_count store_count filled done
  write_pages-run =
      rw
        (
          write_pages,
          looped.run,
          load_frame-ok (record s { frames = looped.frames }) p first_frame,
          appended.run,
        )
        refl

  counted : update s.count 9 (u32 (s.count 9 + 1)) ≡ update s.count 9 (suc (length (lists 9)))
  counted = ap (update s.count 9) (omega (arith, room, pool.counted 9 (omega arith)))

  -- write_pages on a block of 4 MiB whose 1024 descriptors stand one behind the other: each of them
  -- is free and has the address of its page, the first one has order 10, and it is put on the list
  -- of order 9, where the free lists stay well formed and no other descriptor changes. The first
  -- descriptor is in no list, and its `next` is NULL where the list is empty.
  pub write_pages-Written : Written s lists p address old
  unfolding filled done
  write_pages-Written = record {
    after = done;
    run = write_pages-run;
    base = refl;
    pool =
        Pool-push pool 9 p (omega arith) appended.nodes appended.chain appended.same out some_page _
          _ counted;
    largest = ground arith;
    pages = λ i lo hi. ground (arith, looped.done i (omega arith) hi);
    others = λ a far.
        let first : a ≢ p = λ e. far 0 (omega arith) (omega arith) in
        ground (arith, first) ∙ looped.others a (λ i lo hi. far i (omega arith));
    nodes = appended.same;
  }
