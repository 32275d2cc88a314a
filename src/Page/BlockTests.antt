-- ===== src/Page/BlockTests.antt =====
-- A block of 4 MiB on empty free lists.
use cubik_os.Prelude.{
  ℕ, ◌≡◌, ◌≤◌, ◌<◌, ◌*◌, ◌+◌, refl, arith, ltb, if◌then◌else◌, false, none, some, [], ◌∷◌,
}
use cubik_os.LinkedList.Chain.{has}
use cubik_os.Memory.{node, Frame, Store, ok, fault, null}
use cubik_os.Page.Buddy.{handle, write_pages, pm_allocate_pages}
use cubik_os.Page.Split.{Fits, buddy-exact}
use cubik_os.Page.Pool.{Pool}
use cubik_os.Page.Expand.{buddy, IsUnused}
use cubik_os.Page.Write.{written, Written, write_pages-Written, no_list, IsNewBlock}
use cubik_os.Page.Lost.{write_pages-loses}

abbrev raw_frame : ℕ → Frame
raw_frame i = record {
  order = 0;
  free = false;
  kmem = false;
  slab_inuse = 0;
  slab_objects = 0;
  slab_frozen = false;
  slab_cache = 0;
  freelist = 0;
  lock = 0;
  addr = 0;
}

abbrev raw_store : Store
raw_store = record {
  nodes = λ a. some (node 0 0);
  frames = λ a. if ltb a 8192 then none else some (raw_frame 0);
  count = λ k. 0;
  pf_freelist = 1000;
}

raw_store-Pool : Pool raw_store no_list
raw_store-Pool = record {
  chain = λ k le. ground arith;
  apart = λ k le. record { distinct = ground arith; no_null = ground arith };
  counted = λ k le. refl;
  disjoint = λ j k lj lk ne a in_j. ground arith;
}

fits : Fits 8192
fits = omega arith

raw_block : (i : ℕ) → i < 1024 → raw_store.frames (8192 + i * 64) ≡ some (raw_frame i)
raw_block i lt = ground arith

out_of_lists : (a k : ℕ) → 8192 ≤ a → k ≤ 10 → has a (handle raw_store k ∷ []) ≡ false
out_of_lists a k far le = ground arith

raw_unused : (k : ℕ) → 4 < k → k < 10 → IsUnused raw_store no_list (buddy 8192 k)
raw_unused k lo hi =
    let at = buddy-exact 8192 k fits hi in
    record {
      frame = raw_frame 0;
      holds = ground (arith, at);
      links = node 0 0;
      linked = refl;
      fresh = refl;
      not_null = omega (arith, at);
      out = λ j le. out_of_lists (buddy 8192 k) j (omega (arith, at)) le;
    }

raw_store-IsNewBlock : IsNewBlock raw_store 8192 raw_frame 4
raw_store-IsNewBlock = record {
  pool = raw_store-Pool;
  fits = fits;
  block = raw_block;
  links = node 0 0;
  linked = refl;
  fresh = refl;
  some_page = omega arith;
  out = λ k le. out_of_lists 8192 k (omega arith) le;
  unlocked = refl;
  unused = raw_unused;
}

write_pages-Written_example : Written raw_store no_list 8192 0x400000 raw_frame
write_pages-Written_example =
    write_pages-Written raw_store no_list 8192 0x400000 raw_frame (node 0 0) raw_store-Pool fits
      raw_block refl (λ _. refl) (omega arith) (λ k le. out_of_lists 8192 k (omega arith) le)
      (omega arith)

write_pages-loses_example :
    (s1 : Store) × (write_pages 8192 0x400000 raw_store ≡ ok tt s1)
    × (s2 : Store) × (pm_allocate_pages 4 s1 ≡ ok 8192 s2)
    × (s2.frames 8192
        ≡ some (record (written raw_frame 0x400000 0) { order = 5; free = false; lock = 0 }))
    × (s2.count 9 ≡ 1)
    × (s2.nodes (handle s2 9) ≡ some (node null null))
    × (pm_allocate_pages 9 s2 ≡ fault)
write_pages-loses_example =
    write_pages-loses raw_store 8192 0x400000 raw_frame 4 raw_store-IsNewBlock (omega arith) refl
