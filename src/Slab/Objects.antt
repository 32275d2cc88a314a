-- ===== src/Slab/Objects.antt =====
-- The free objects of a new page.
use native.Mathlib.Nat.{mul-le-mul_right}
use cubik_os.Prelude.{
  ℕ, suc, ◌+◌, ◌-◌, ◌*◌, ◌/◌, ◌^◌, ◌%◌, ◌≤◌, ◌<◌, ◌≡◌, refl, true, some, arith, ◌∙◌, inl, inr,
  subst, ℕ_discrete, sweep, sweep_lem, update, u64,
}
use cubik_os.Memory.{Frame, load_frame-ok, store_frame}
use cubik_os.Bytes.{Bytes, load64, store64, load64-store64, load-store_apart}
use cubik_os.Machine.{Machine, ok}
use cubik_os.Slab.Defs.{Cache, link_objects, set_page}

-- The first `n` objects are linked, and the others are as they were.
pub record Links (virt size : ℕ) (old : Bytes) (m : Bytes) (n : ℕ) : Type 0 where
  pub linked :
      (i : ℕ)
      → i < n
      → virt + (i + 1) * size < 2 ^ 64
      → load64 (virt + i * size) m ≡ virt + (i + 1) * size
  pub rest : (i : ℕ) → n ≤ i → load64 (virt + i * size) m ≡ load64 (virt + i * size) old

-- Two objects do not overlap.
pub apart : (i k size : ℕ) → i < k → i * size + size ≤ k * size
apart i k size lt =
    let le : (i + 1) * size ≤ k * size = mul-le-mul_right size (omega arith) in omega (arith, le)

-- The object that a round links.
link_here :
    (virt size n i : ℕ) (m : Bytes)
    → i ≡ n
    → virt + (i + 1) * size < 2 ^ 64
    → load64 (virt + i * size) (store64 (virt + n * size) (u64 (virt + (n + 1) * size)) m)
      ≡ virt + (i + 1) * size
link_here virt size n i m same fits =
    subst
      (λ k.
        load64 (virt + i * size) (store64 (virt + k * size) (u64 (virt + (k + 1) * size)) m)
        ≡ virt + (i + 1) * size)
      same (load64-store64 (virt + i * size) (u64 (virt + (i + 1) * size)) m ∙ omega arith)

Links-step :
    (virt size : ℕ) (old m : Bytes) (n : ℕ)
    → 8 ≤ size
    → Links virt size old m n
    → Links virt size old (store64 (virt + n * size) (u64 (virt + (n + 1) * size)) m) (suc n)
Links-step virt size old m n wide links = record {
  linked = λ i lt fits. elim (ℕ_discrete i n) [
    | yes same ↦ link_here virt size n i m same fits
    | no other ↦
        load-store_apart 8 8 (virt + n * size) (virt + i * size) (u64 (virt + (n + 1) * size)) m
          (inr (omega (arith, apart i n size (omega arith))))
        ∙ links.linked i (omega arith) fits
  ];
  rest = λ i le.
      load-store_apart 8 8 (virt + n * size) (virt + i * size) (u64 (virt + (n + 1) * size)) m
        (inl (omega (arith, apart n i size (omega arith))))
      ∙ links.rest i (omega arith);
}

pub link_objects-Links :
    (virt size objects : ℕ) (m : Bytes)
    → 8 ≤ size
    → 1 ≤ objects
    → objects < 2 ^ 15
    → Links virt size m (link_objects virt size objects m) (objects - 1)
unfolding link_objects
link_objects-Links virt size objects m wide some_object few =
    let rounds : u64 (objects + 2 ^ 64 - 1) ≡ objects - 1 = omega arith in
    let from_zero : 0 + (objects - 1) ≡ objects - 1 = omega arith in
    rw rounds (
      subst
        (Links virt size m (
          sweep (λ b i. store64 (virt + i * size) (u64 (virt + (i + 1) * size)) b) 0 (objects - 1)
            m))
        from_zero
        (sweep_lem (λ b i. store64 (virt + i * size) (u64 (virt + (i + 1) * size)) b)
          (Links virt size m) (λ b k links. Links-step virt size m b k wide links) (objects - 1) 0 m
          (record { linked = λ i lt fits. absurd (omega arith); rest = λ i le. refl })))

-- The number of objects of a page.
abbrev pub objects_of : Cache → ℕ
objects_of c = (4096 - c.reserved) / c.size % 2 ^ 15

-- The descriptor of a page of the cache, and the machine after __slab_SetPage.
abbrev pub page_of : ℕ → Cache → ℕ → Frame → Frame
page_of cache c virt f = record f {
  kmem = true;
  slab_cache = cache;
  freelist = virt;
  slab_objects = objects_of c;
  slab_inuse = 0;
}

abbrev pub with_objects : ℕ → ℕ → ℕ → Cache → Machine → Frame → Machine
with_objects cache page virt c m f = record m {
  store = record m.store { frames = update m.store.frames page (some (page_of cache c virt f)) };
  bytes = link_objects virt c.size (objects_of c) m.bytes;
}

pub set_page-ok :
    (cache page virt : ℕ) (c : Cache) (m : Machine) (f : Frame)
    → m.store.frames page ≡ some f
    → set_page cache c page virt m ≡ ok tt (with_objects cache page virt c m f)
unfolding set_page store_frame
set_page-ok cache page virt c m f here = rw (set_page, load_frame-ok m.store page here) refl

-- __slab_SetPage makes the free list of a page at `virt` with the objects that the cache's size
-- gives, of which there is at least one and each has room for a link: the descriptor has the first
-- object, the number of objects and none in use, each object but the last has the address of the
-- next one, and the last one keeps the link that its memory happens to hold.
pub set_page-linked :
    (cache page virt : ℕ) (c : Cache) (m : Machine) (f : Frame)
    → m.store.frames page ≡ some f
    → 8 ≤ c.size
    → 1 ≤ objects_of c
    → virt + objects_of c * c.size ≤ 2 ^ 64
    → (m' : Machine) × (set_page cache c page virt m ≡ ok tt m')
      × (m'.store.frames page ≡ some (page_of cache c virt f))
      × ((i : ℕ)
          → i + 1 < objects_of c
          → load64 (virt + i * c.size) m'.bytes ≡ virt + (i + 1) * c.size)
      × (load64 (virt + (objects_of c - 1) * c.size) m'.bytes
          ≡ load64 (virt + (objects_of c - 1) * c.size) m.bytes)
set_page-linked cache page virt c m f here wide some_object fits =
    let links =
      link_objects-Links virt c.size (objects_of c) m.bytes wide some_object (omega arith) in
    (
      with_objects cache page virt c m f,
      set_page-ok cache page virt c m f here,
      ground arith,
      λ i lt.
          links.linked i (omega arith)
            (omega (arith, fits, apart (i + 1) (objects_of c) c.size lt)),
      links.rest (objects_of c - 1) (omega arith),
    )
