-- ===== src/Page/Pool.antt =====
-- The free lists as a family of lists of descriptors, and what splitting a block does to them.
use cubik_os.Prelude.{
  ℕ, suc, ◌≤◌, ◌≡◌, refl, ◌≢◌, sym, arith, ◌==◌, true, false, Option, some, List, [], ◌∷◌, length,
  update, ap, ◌∙◌, fun_ext, subst, ==_iff, Bool-cases, inl, inr, ℕ_discrete,
}
use cubik_os.Memory.{Node, node, Frame, Store, ok, null, load_node, store_node, set_prev, set_next}
use cubik_os.LinkedList.Defs.{list_remove}
use cubik_os.LinkedList.Chain.{has, first, Chain, IsApart, SameOutside, Chain-head, Chain-rehead}
use cubik_os.Page.Buddy.{handle}

-- `lists k` is what hangs on the handle of order `k`; lists of two orders share no node.
pub record Pool (s : Store) (lists : ℕ → List ℕ) : Type 0 where
  pub chain : (k : ℕ) → k ≤ 10 → Chain s.nodes null (handle s k) (lists k)
  pub apart : (k : ℕ) → k ≤ 10 → IsApart (handle s k ∷ lists k)
  pub counted : (k : ℕ) → k ≤ 10 → s.count k ≡ length (lists k)
  pub disjoint :
      (j k : ℕ)
      → j ≤ 10
      → k ≤ 10
      → j ≢ k
      → (a : ℕ) → has a (handle s j ∷ lists j) ≡ true
      → has a (handle s k ∷ lists k) ≡ false

-- Descriptors may change: the lists are made of nodes and counters.
pub Pool-frames :
    {s : Store} {lists : ℕ → List ℕ}
    → Pool s lists
    → (frames : ℕ → Option Frame) → Pool (record s { frames = frames }) lists
Pool-frames pool frames = record {
  chain = pool.chain;
  apart = pool.apart;
  counted = pool.counted;
  disjoint = pool.disjoint;
}

-- The page was taken from the front of list `m` and still has the links that it had there.
pub record IsTaken (s : Store) (lists : ℕ → List ℕ) (m p : ℕ) : Type 0 where
  pub links : s.nodes p ≡ some (node (handle s m) (first (lists m)))
  pub out : (k : ℕ) → k ≤ 10 → has p (handle s k ∷ lists k) ≡ false

abbrev pub with_list : (ℕ → List ℕ) → ℕ → List ℕ → ℕ → List ℕ
with_list lists k ys = update lists k ys

abbrev pub pushed : (ℕ → List ℕ) → ℕ → ℕ → ℕ → List ℕ
pushed lists k q = with_list lists k (q ∷ lists k)

pub with_list_self : (lists : ℕ → List ℕ) (k : ℕ) (ys : List ℕ) → with_list lists k ys k ≡ ys
with_list_self lists k ys = rw ((==_iff k k).1 refl)

pub with_list-other :
    (lists : ℕ → List ℕ) (k : ℕ) (ys : List ℕ) (j : ℕ)
    → ¬ (k ≡ j)
    → with_list lists k ys j ≡ lists j
with_list-other lists k ys j ne = elim (Bool-cases (k == j)) [
  | inl e ↦ absurd (ne ((==_iff k j).0 e))
  | inr e ↦ rw e
]

-- List `k` is replaced by `ys`, whose nodes are in no other list, and the nodes of the other
-- lists are kept: the lists stay well formed.
module _ {s : Store} {lists : ℕ → List ℕ} (pool : Pool s lists) (k : ℕ) (ys : List ℕ)
    (g : ℕ → Option Node) (chain' : Chain g null (handle s k) ys)
    (apart' : IsApart (handle s k ∷ ys))
    (kept : (j : ℕ)
      → j ≤ 10
      → ¬ (k ≡ j)
      → (a : ℕ) → has a (handle s j ∷ lists j) ≡ true
      → g a ≡ s.nodes a)
    (new : (j : ℕ)
      → j ≤ 10
      → ¬ (k ≡ j)
      → (a : ℕ) → has a (handle s k ∷ ys) ≡ true
      → has a (handle s j ∷ lists j) ≡ false) where
  open pool use {chain, apart, counted, disjoint}

  replace-Chain : (j : ℕ) → j ≤ 10 → Chain g null (handle s j) (with_list lists k ys j)
  replace-Chain j le = elim (ℕ_discrete k j) [
    | yes e ↦
        subst (λ i. Chain g null (handle s i) (with_list lists k ys i)) e (rw with_list_self chain')
    | no ne ↦ rw (with_list-other lists k ys j ne) (
        Chain-rehead s.nodes g null null (handle s j) (lists j) (chain j le)
          (kept j le ne (handle s j) (ground arith)
            ∙ Chain-head s.nodes null (handle s j) (lists j) (chain j le))
          (λ a i. kept j le ne a (ground arith)))
  ]

  replace-IsApart : (j : ℕ) → j ≤ 10 → IsApart (handle s j ∷ with_list lists k ys j)
  replace-IsApart j le = elim (ℕ_discrete k j) [
    | yes e ↦
        subst (λ i. IsApart (handle s i ∷ with_list lists k ys i)) e (rw with_list_self apart')
    | no ne ↦ rw (with_list-other lists k ys j ne) (apart j le)
  ]

  replace-counted :
      (c : ℕ → ℕ)
      → c ≡ update s.count k (length ys)
      → (j : ℕ) → j ≤ 10
      → c j ≡ length (with_list lists k ys j)
  replace-counted c e j le = ap (λ f. f j) e ∙ ground (arith, counted j le)

  replace-disjoint :
      (i j : ℕ)
      → i ≤ 10
      → j ≤ 10
      → i ≢ j
      → (a : ℕ) → has a (handle s i ∷ with_list lists k ys i) ≡ true
      → has a (handle s j ∷ with_list lists k ys j) ≡ false
  replace-disjoint i j i_le j_le ne a h = ground (
    arith,
    disjoint i j i_le j_le ne a,
    λ (n : ¬ (k ≡ i)). new i i_le n a,
    λ (n : ¬ (k ≡ j)). new j j_le n a,
  )

  pub Pool-replace :
      (frames : ℕ → Option Frame) (c : ℕ → ℕ)
      → c ≡ update s.count k (length ys)
      → Pool (record s { nodes = g; frames = frames; count = c }) (with_list lists k ys)
  Pool-replace frames c e = record {
    chain = replace-Chain;
    apart = replace-IsApart;
    counted = replace-counted c e;
    disjoint = replace-disjoint;
  }

-- A node of no list is put in front of list `k`.
module _ {s : Store} {lists : ℕ → List ℕ} (pool : Pool s lists) (k q : ℕ) (k_le : k ≤ 10)
    (g : ℕ → Option Node) (chain' : Chain g null (handle s k) (q ∷ lists k))
    (same : SameOutside (q ∷ handle s k ∷ lists k) s.nodes g)
    (out : (j : ℕ) → j ≤ 10 → has q (handle s j ∷ lists j) ≡ false) (q_pos : q ≢ null) where
  open pool use {apart, disjoint}

  push-IsApart : IsApart (handle s k ∷ q ∷ lists k)
  push-IsApart = record {
    distinct = ground (arith, (apart k k_le).distinct, out k k_le);
    no_null = ground (arith, (apart k k_le).no_null);
  }

  pub Pool-push :
      (frames : ℕ → Option Frame) (c : ℕ → ℕ)
      → c ≡ update s.count k (suc (length (lists k)))
      → Pool (record s { nodes = g; frames = frames; count = c }) (pushed lists k q)
  Pool-push =
      Pool-replace pool k (q ∷ lists k) g chain' push-IsApart
        (λ j le ne a i.
          ground (arith, same a, disjoint j k le k_le (λ e. ne (sym e)) a i, out j le))
        (λ j le ne a i. ground (arith, disjoint k j k_le le ne a, out j le))

-- The first node of list `k` is taken out.
module _ {s : Store} {lists : ℕ → List ℕ} (pool : Pool s lists) (k p : ℕ) (rest : List ℕ)
    (k_le : k ≤ 10) (here : lists k ≡ p ∷ rest) (g : ℕ → Option Node)
    (chain' : Chain g null (handle s k) rest)
    (same : SameOutside (handle s k ∷ p ∷ rest) s.nodes g) where
  open pool use {apart, disjoint}

  front-IsApart : IsApart (handle s k ∷ p ∷ rest)
  front-IsApart = rw here at (apart k k_le)

  front-disjoint :
      (j : ℕ)
      → j ≤ 10
      → ¬ (k ≡ j)
      → (a : ℕ) → has a (handle s k ∷ p ∷ rest) ≡ true
      → has a (handle s j ∷ lists j) ≡ false
  front-disjoint j le ne a i =
      disjoint k j k_le le ne a (subst (λ xs. has a (handle s k ∷ xs) ≡ true) (sym here) i)

  pub Pool-pop :
      (frames : ℕ → Option Frame) (c : ℕ → ℕ)
      → c ≡ update s.count k (length rest)
      → Pool (record s { nodes = g; frames = frames; count = c }) (with_list lists k rest)
  Pool-pop =
      Pool-replace pool k rest g chain'
        (record {
          distinct = ground (arith, front-IsApart.distinct);
          no_null = ground (arith, front-IsApart.no_null);
        })
        (λ j le ne a i. ground (arith, same a, front-disjoint j le ne a))
        (λ j le ne a i. front-disjoint j le ne a (ground arith))

  front-out : has p (handle s k ∷ rest) ≡ false
  front-out = ground (arith, front-IsApart.distinct)

  -- The node is in no list any more.
  pub popped-out : (j : ℕ) → j ≤ 10 → has p (handle s j ∷ with_list lists k rest j) ≡ false
  popped-out j le = elim (ℕ_discrete k j) [
    | yes e ↦
        subst (λ i. has p (handle s i ∷ with_list lists k rest i) ≡ false) e
          (rw (with_list_self lists k rest) front-out)
    | no ne ↦ rw (with_list-other lists k rest j ne) (front-disjoint j le ne p (ground arith))
  ]

-- Taking a page out once more changes nothing.
pub list_remove-again :
    (s : Store) (h p : ℕ) (xs : List ℕ)
    → Chain s.nodes null h xs
    → IsApart (h ∷ xs)
    → s.nodes p ≡ some (node h (first xs))
    → list_remove p s ≡ ok tt s
unfolding list_remove set_prev set_next load_node store_node
list_remove-again s h p [] c apart links = ground (arith, same)
  where
    same : update s.nodes h (some (node null null)) ≡ s.nodes
    same = fun_ext λ a. ground arith
list_remove-again s h p (x ∷ xs) c apart links = ground (arith, same, Chain-head s.nodes h x xs c.1)
  where
    same : update (update s.nodes h (some (node null x))) x (some (node h (first xs))) ≡ s.nodes
    same = fun_ext λ a. ground (arith, Chain-head s.nodes h x xs c.1)
