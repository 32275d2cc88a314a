-- ===== src/Slab/Taken.antt =====
-- A page that is taken into use, and the objects that it gives.
use cubik_os.Prelude.{
  ℕ, Option, ◌⊎◌, inl, inr, ℕ_discrete, if◌then◌else◌, suc, ◌+◌, ◌≡◌, ◌≢◌, refl, true, false, ◌==◌,
  some, arith, ◌∙◌, ap, if_false, update, u16,
}
use cubik_os.Memory.{
  Cmd, Node, node, Frame, Store, load_node, store_node, set_prev, set_next, load_node-ok,
  load_frame-ok, store_frame,
}
use cubik_os.Memory
use cubik_os.Bytes.{load64}
use cubik_os.LinkedList.Defs.{list_remove}
use cubik_os.Machine.{Machine, ok}
use cubik_os.Slab.Defs.{Slab, CpuCache, cpu_of, with_cpu, assign_cpu_slab}
use cubik_os.Slab.Allocate.{
  Source, follow, take_object, fastest_path, allocate_from, allocate_object,
}

-- NULL, or the address of a node.
abbrev pub IsLink : (ℕ → Option Node) → ℕ → Type 0
IsLink nodes a = (a ≡ 0) ⊎ ((n : Node) × (nodes a ≡ some n))

-- A page with the descriptor `f`, whose links are NULL or lead to nodes. It may be in a list or have
-- been in one: LinkedListRemove does not clear the links of what it takes out.
pub record IsLinked (m : Machine) (page : ℕ) (f : Frame) : Type 0 where
  pub links : Node
  pub at : m.store.nodes page ≡ some links
  pub prev : IsLink m.store.nodes links.prev
  pub next : IsLink m.store.nodes links.next
  pub here : m.store.frames page ≡ some f

abbrev pub with_frame : Machine → ℕ → Frame → Machine
with_frame m page f = record m {
  store = record m.store { frames = update m.store.frames page (some f) };
}

abbrev pub with_nodes : Machine → (ℕ → Option Node) → Machine
with_nodes m nodes = record m { store = record m.store { nodes = nodes } }

IsLink-update :
    (nodes : ℕ → Option Node) (a b : ℕ) (n : Node)
    → IsLink nodes b
    → IsLink (update nodes a (some n)) b
IsLink-update nodes a b n (inl none_there) = inl none_there
IsLink-update nodes a b n (inr (old, there)) = elim (ℕ_discrete a b) [
  | yes same ↦ inr (n, ground (arith, same))
  | no other ↦ inr (old, ground (arith, other, there))
]

-- A write to the node that a link leads to, if there is one: it succeeds whatever the frames are.
Written : (ℕ → Option Node) → ℕ → Cmd (Unit {0}) → Type 0
Written nodes a write =
    (after : ℕ → Option Node) × ((s : Store)
      → s.nodes ≡ nodes
      → (if a == 0 then Memory.pure tt else write) s ≡ Memory.ok tt (record s { nodes = after }))
    × ((b : ℕ) → IsLink nodes b → IsLink after b)

set_next-Written :
    (nodes : ℕ → Option Node) (a q : ℕ) → IsLink nodes a → Written nodes a (set_next a q)
unfolding Written set_next store_node
set_next-Written nodes a q (inl none_there) = (
  nodes,
  (λ s same. ground (arith, none_there, ap (λ f. record s { nodes = f }) same)),
  λ b link. link,
)
set_next-Written nodes a q (inr (n, there)) = elim (ℕ_discrete a 0) [
  | yes zero_link ↦ (
    nodes,
    (λ s same. ground (arith, zero_link, ap (λ f. record s { nodes = f }) same)),
    λ b link. link,
  )
  | no some_link ↦ (
    update nodes a (some (record n { next = q })),
    (λ s same.
        let other : (a == 0) ≡ false = ground (arith, some_link) in
        rw (other, load_node-ok s a (ap (λ f. f a) same ∙ there), same) refl),
    λ b link. IsLink-update nodes a b (record n { next = q }) link,
  )
]

set_prev-Written :
    (nodes : ℕ → Option Node) (a q : ℕ) → IsLink nodes a → Written nodes a (set_prev a q)
unfolding Written set_prev store_node
set_prev-Written nodes a q (inl none_there) = (
  nodes,
  (λ s same. ground (arith, none_there, ap (λ f. record s { nodes = f }) same)),
  λ b link. link,
)
set_prev-Written nodes a q (inr (n, there)) = elim (ℕ_discrete a 0) [
  | yes zero_link ↦ (
    nodes,
    (λ s same. ground (arith, zero_link, ap (λ f. record s { nodes = f }) same)),
    λ b link. link,
  )
  | no some_link ↦ (
    update nodes a (some (record n { prev = q })),
    (λ s same.
        let other : (a == 0) ≡ false = ground (arith, some_link) in
        rw (other, load_node-ok s a (ap (λ f. f a) same ∙ there), same) refl),
    λ b link. IsLink-update nodes a b (record n { prev = q }) link,
  )
]

-- LinkedListRemove of such a page succeeds whatever the frames are, and writes to nodes only.
pub list_remove-linked :
    (nodes : ℕ → Option Node) (p : ℕ) (n : Node)
    → nodes p ≡ some n
    → IsLink nodes n.prev
    → IsLink nodes n.next
    → (after : ℕ → Option Node) × ((s : Store)
        → s.nodes ≡ nodes
        → list_remove p s ≡ Memory.ok tt (record s { nodes = after }))
unfolding Written list_remove
list_remove-linked nodes p n at prev next =
    let (middle, first, links) = set_next-Written nodes n.prev n.next prev in
    let (after, second, others) = set_prev-Written middle n.next n.prev (links n.next next) in
    (
      after,
      λ s same.
          rw
            (
              load_node-ok s p (ap (λ f. f p) same ∙ at),
              first s same,
              second (record s { nodes = middle }) refl,
            )
            refl,
    )

follow-ok : (ptr : ℕ) (m : Machine) → ptr ≢ 0 → follow ptr m ≡ ok (load64 ptr m.bytes) m
unfolding follow
follow-ok ptr m some_object = if_false (ptr == 0) _ _ (ground (arith, some_object))

-- The frame with its first object taken.
abbrev pub taken : Frame → Machine → Frame
taken f m = record f { freelist = load64 f.freelist m.bytes; slab_inuse = u16 (f.slab_inuse + 1) }

module _ (page : ℕ) (m : Machine) (f : Frame) where
  -- The nodes after the page has been unlinked.
  abbrev pub unlinked : IsLinked m page f → ℕ → Option Node
  unlinked linked =
      (list_remove-linked m.store.nodes page linked.links linked.at linked.prev linked.next).0

  pub assign_cpu_slab-linked :
      (linked : IsLinked m page f) (cache : ℕ) (slab : Slab) (g : Frame) (m' : Machine)
      → m'.store.nodes ≡ m.store.nodes
      → m'.store.frames page ≡ some g
      → assign_cpu_slab cache page slab m'
        ≡ ok
            (with_cpu cache (record { freelist = g.freelist; page = page }) slab)
            (with_frame (with_nodes m' (unlinked linked)) page (record g { slab_frozen = true }))
  unfolding assign_cpu_slab store_frame
  assign_cpu_slab-linked linked cache slab g m' same there =
      rw
        (
          assign_cpu_slab,
          (list_remove-linked m.store.nodes page linked.links linked.at linked.prev linked.next).1
              m'.store same,
          load_frame-ok (record m'.store { nodes = unlinked linked }) page there,
        )
        refl

module _ (page : ℕ) (m : Machine) (f : Frame) (here : m.store.frames page ≡ some f) where
  pub take_object-ok :
      f.freelist ≢ 0 → take_object page m ≡ ok f.freelist (with_frame m page (taken f m))
  unfolding take_object store_frame
  take_object-ok some_object =
      rw (take_object, load_frame-ok m.store page here, follow-ok f.freelist m some_object) refl

  -- FASTEST_PATH, where the page has more objects.
  pub fastest_path-ok :
      (source : Source) (cache : ℕ) (slab : Slab) (ptr : ℕ)
      → ptr ≢ 0
      → page ≢ 0
      → u16 (f.slab_inuse + 1) ≢ f.slab_objects
      → fastest_path source cache page ptr slab m
        ≡ ok
            (
              ptr,
              with_cpu cache (record (cpu_of cache slab) { freelist = load64 ptr m.bytes }) slab,
            )
            (with_frame m page
              (record f { freelist = load64 ptr m.bytes; slab_inuse = u16 (f.slab_inuse + 1) }))
  unfolding fastest_path store_frame
  fastest_path-ok source cache slab ptr some_object some_page more =
      let there : (page == 0) ≡ false = ground (arith, some_page) in
      let not_full : (u16 (f.slab_inuse + 1) == f.slab_objects) ≡ false = ground (arith, more) in
      rw
        (
          fastest_path,
          follow-ok ptr m some_object,
          there,
          load_frame-ok m.store page here,
          not_full,
        )
        refl

pub update-same :
    (m : Machine) (page : ℕ) (f : Frame) → (with_frame m page f).store.frames page ≡ some f
update-same m page f = ground arith

-- The processor's part of the cache after `with_cpu`.
pub cpu_of-with_cpu :
    (cache : ℕ) (c : CpuCache) (slab : Slab) → cpu_of cache (with_cpu cache c slab) ≡ c
cpu_of-with_cpu cache c slab = ground arith

pub allocate_object-fastest :
    (rounds : ℕ) (source : Source) (cache : ℕ) (slab : Slab) (c : CpuCache)
    → cache ≢ 0
    → cpu_of cache slab ≡ c
    → c.freelist ≢ 0
    → allocate_object (suc rounds) source cache slab
      ≡ fastest_path source cache c.page c.freelist slab
unfolding allocate_object allocate_from
allocate_object-fastest rounds source cache slab c some_cache here some_object =
    let same : (cpu_of cache slab).freelist ≡ c.freelist = ap (λ (d : CpuCache). d.freelist) here in
    let other : ((cpu_of cache slab).freelist == 0) ≡ false = ground (arith, same, some_object) in
    if_false (cache == 0) _ _ (ground (arith, some_cache))
    ∙ if_false ((cpu_of cache slab).freelist == 0) _ _ other
    ∙ ap (λ (d : CpuCache). fastest_path source cache d.page d.freelist slab) here
