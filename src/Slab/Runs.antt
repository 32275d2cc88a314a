-- ===== src/Slab/Runs.antt =====
-- Runs of allocations from a page, against the list of its free objects.
use cubik_os.Prelude.{
  ℕ, zero, suc, ◌+◌, ◌^◌, ◌<◌, ◌≡◌, ◌≢◌, refl, some, arith, ◌∙◌, ap, ap₂, List, [], ◌∷◌, length,
  u16, subst, sym,
}
use cubik_os.Memory.{Frame}
use cubik_os.Bytes.{Bytes, load64}
use cubik_os.Machine.{Machine, Act, ok, pure, ◌>>=◌}
use cubik_os.Slab.Defs.{Slab, CpuCache, cpu_of, with_cpu}
use cubik_os.Slab.Allocate.{Source, allocate_object}
use cubik_os.Slab.Taken.{
  with_frame, update-same, fastest_path-ok, cpu_of-with_cpu, allocate_object-fastest,
}

-- As many allocations in a row as `n`, and what they return.
unfoldable pub allocate_objects : ℕ → ℕ → Source → ℕ → Slab → Act (List ℕ × Slab)
allocate_objects rounds zero source cache slab = pure ([], slab)
allocate_objects rounds (suc n) source cache slab = do
  first ← allocate_object (suc rounds) source cache slab
  others ← allocate_objects rounds n source cache (first).1
  pure ((first).0 ∷ (others).0, (others).1)

-- The abstract free list: from `ptr` on the objects are these, each linked to the next.
unfoldable pub IsFreeList : Bytes → ℕ → List ℕ → Type 0
IsFreeList bytes ptr [] = Unit {0}
IsFreeList bytes ptr (x ∷ xs) = (ptr ≡ x) × (x ≢ 0) × IsFreeList bytes (load64 x bytes) xs

-- What stands behind the last of the objects.
unfoldable pub after : Bytes → ℕ → List ℕ → ℕ
after bytes ptr [] = ptr
after bytes ptr (x ∷ xs) = after bytes (load64 x bytes) xs

-- The processor allocates from `page`, whose descriptor is `f`, and its first free object is `ptr`.
pub record Serves (cache page ptr inuse objects : ℕ) (bytes : Bytes) (slab : Slab) (m : Machine)
    : Type 0 where
  pub cpu : cpu_of cache slab ≡ record { freelist = ptr; page = page }
  pub frame : Frame
  pub here : m.store.frames page ≡ some frame
  pub some_inuse : frame.slab_inuse ≡ inuse
  pub total : frame.slab_objects ≡ objects
  pub memory : m.bytes ≡ bytes

-- One allocation, and then the others.
allocate_objects-next :
    (rounds : ℕ) (source : Source) (cache n ptr : ℕ) (slab slab' slab'' : Slab) (m m' m'' : Machine)
    (xs : List ℕ)
    → allocate_object (suc rounds) source cache slab m ≡ ok (ptr, slab') m'
    → allocate_objects rounds n source cache slab' m' ≡ ok (xs, slab'') m''
    → allocate_objects rounds (suc n) source cache slab m ≡ ok (ptr ∷ xs, slab'') m''
unfolding allocate_objects
allocate_objects-next rounds source cache n ptr slab slab' slab'' m m' m'' xs one others =
    rw (allocate_objects, one, others) refl

module _ (rounds : ℕ) (source : Source) (cache page objects : ℕ) (bytes : Bytes)
    (some_cache : cache ≢ 0) (some_page : page ≢ 0) (few : objects < 2 ^ 16) where
  allocate_object-Serves :
      (ptr inuse : ℕ) (slab : Slab) (m : Machine)
      → ptr ≢ 0
      → inuse + 1 < objects
      → Serves cache page ptr inuse objects bytes slab m
      → (slab' : Slab) × (m' : Machine) × (allocate_object (suc rounds) source cache slab m
          ≡ ok (ptr, slab') m')
        × Serves cache page (load64 ptr bytes) (inuse + 1) objects bytes slab' m'
  allocate_object-Serves ptr inuse slab m some_object more serves =
      let c : CpuCache = record { freelist = ptr; page = page } in
      let f : Frame = serves.frame in
      let slab' =
        with_cpu cache (record (cpu_of cache slab) { freelist = load64 ptr m.bytes }) slab in
      let f' : Frame = record f {
        freelist = load64 ptr m.bytes;
        slab_inuse = u16 (f.slab_inuse + 1);
      } in
      (
        slab',
        with_frame m page f',
        ap (λ (act : Act (ℕ × Slab)). act m)
              (allocate_object-fastest rounds source cache slab c some_cache serves.cpu some_object)
            ∙ fastest_path-ok page m f serves.here source cache slab ptr some_object some_page
                (omega (arith, few, more, serves.some_inuse, serves.total)),
        record {
          cpu =
              cpu_of-with_cpu cache (record (cpu_of cache slab) { freelist = load64 ptr m.bytes })
                slab
              ∙ ap₂ (λ (d : CpuCache) (b : Bytes). record d { freelist = load64 ptr b }) serves.cpu
                  serves.memory;
          frame = f';
          here = update-same m page f';
          some_inuse = omega (arith, few, more, serves.some_inuse);
          total = serves.total;
          memory = serves.memory;
        },
      )

  -- A run of allocations refines taking the objects from the front of the free list: while the page
  -- of the processor keeps an object back, as many allocations as the list has objects return
  -- exactly these in their order, no byte of the memory changes, and the processor is left with what
  -- stands behind the last one and with as many more objects in use. The cache and the page are not
  -- at NULL.
  pub allocate_objects-refines :
      (xs : List ℕ) (ptr inuse : ℕ) (slab : Slab) (m : Machine)
      → IsFreeList bytes ptr xs
      → inuse + length xs < objects
      → Serves cache page ptr inuse objects bytes slab m
      → (slab' : Slab) × (m' : Machine) × (allocate_objects rounds (length xs) source cache slab m
          ≡ ok (xs, slab') m')
        × Serves cache page (after bytes ptr xs) (inuse + length xs) objects bytes slab' m'
  unfolding allocate_objects IsFreeList after
  allocate_objects-refines [] ptr inuse slab m free more serves = (
    slab,
    m,
    refl,
    subst (λ k. Serves cache page ptr k objects bytes slab m) (omega arith) serves,
  )
  allocate_objects-refines (x ∷ xs) ptr inuse slab m free more serves =
      let some_object : ptr ≢ 0 = subst (λ y. y ≢ 0) (sym (free).0) (free).1 in
      let step = allocate_object-Serves ptr inuse slab m some_object (omega arith) serves in
      let slab' = (step).0 in
      let m' = (step).1 in
      let served =
        subst (λ y. Serves cache page (load64 y bytes) (inuse + 1) objects bytes slab' m') (free).0
          (step).3 in
      let rest =
        allocate_objects-refines xs (load64 x bytes) (inuse + 1) slab' m' (free).2 (omega arith)
          served in
      (
        (rest).0,
        (rest).1,
        allocate_objects-next rounds source cache (length xs) ptr slab slab' (rest).0 m m' (rest).1
              xs (step).2 (rest).2
            ∙ ap (λ y. ok (y ∷ xs, (rest).0) (rest).1) (free).0,
        subst
            (λ k.
              Serves cache page (after bytes (load64 x bytes) xs) k objects bytes (rest).0 (rest).1)
            (omega arith) (rest).3,
      )
