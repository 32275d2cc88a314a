-- ===== src/LinkedList/Append.antt =====
-- LinkedListAppend on a well-formed list.
use cubik_os.Prelude.{ℕ, ◌≡◌, refl, ◌≢◌, Option, some, List, [], ◌∷◌, arith, update}
use cubik_os.Memory.{Node, node, Store, null, ok, set_prev, set_next, load_node, store_node}
use cubik_os.LinkedList.Defs.{list_append}
use cubik_os.LinkedList.Chain.{first, Chain, SameOutside, IsApart, Chain-head, Chain-rehead}

-- The node map after `x`, which led to `old`, has been linked in between `h` and the first of `xs`.
abbrev pub linked : (ℕ → Option Node) → ℕ → ℕ → ℕ → ℕ → List ℕ → ℕ → Option Node
linked f hp h x old [] = update (update f x (some (node h old))) h (some (node hp x))
linked f hp h x old (y ∷ ys) =
    update
      (update (update (update f x (some (node h old))) x (some (node h y))) y
        (some (node x (first ys))))
      h (some (node hp x))

module _ (s : Store) (hp h x : ℕ) where
  pub list_append-ok :
      (n : Node) (xs : List ℕ)
      → Chain s.nodes hp h xs
      → IsApart (x ∷ h ∷ xs)
      → s.nodes x ≡ some n
      → list_append h x s ≡ ok tt (record s { nodes = linked s.nodes hp h x n.next xs })
  unfolding list_append set_prev set_next load_node store_node
  list_append-ok n [] c apart e = ground arith
  list_append-ok n (y ∷ ys) c apart e = ground (arith, Chain-head s.nodes h y ys c.1)

module _ (f : ℕ → Option Node) (hp h x old : ℕ) where
  -- The new node stands first. In an empty list its own old `next` must be NULL.
  pub linked-Chain :
      (xs : List ℕ)
      → Chain f hp h xs
      → IsApart (x ∷ h ∷ xs)
      → (xs ≡ [] → old ≡ null)
      → Chain (linked f hp h x old xs) hp h (x ∷ xs)
  linked-Chain [] c apart fresh = ground (arith, fresh refl)
  linked-Chain (y ∷ ys) c apart fresh = (
    ground arith,
    (
      ground arith,
      Chain-rehead f (linked f hp h x old (y ∷ ys)) h x y ys c.1 (ground arith)
          (λ a i. ground arith),
    ),
  )

  -- No node but the new one, the head and the first is written.
  pub linked-SameOutside : (xs : List ℕ) → SameOutside (x ∷ h ∷ xs) f (linked f hp h x old xs)
  linked-SameOutside [] a out = ground arith
  linked-SameOutside (y ∷ ys) a out = ground arith

-- What `list_append h x` leaves of a list with head `h`.
pub record Appended (s : Store) (hp h x : ℕ) (xs : List ℕ) : Type 0 where
  pub nodes : ℕ → Option Node
  pub run : list_append h x s ≡ ok tt (record s { nodes = nodes })
  pub chain : Chain nodes hp h (x ∷ xs)
  pub same : SameOutside (x ∷ h ∷ xs) s.nodes nodes

-- LinkedListAppend of a node that is not in the well-formed list: the node stands behind the
-- head, the rest follows, and only nodes of the list are written. If the list is empty, the
-- node's own `next` must have been NULL.
pub list_append-Appended :
    (s : Store) (hp h x : ℕ) (n : Node) (xs : List ℕ)
    → Chain s.nodes hp h xs
    → IsApart (x ∷ h ∷ xs)
    → s.nodes x ≡ some n
    → (xs ≡ [] → n.next ≡ null)
    → Appended s hp h x xs
list_append-Appended s hp h x n xs c apart e fresh = record {
  nodes = linked s.nodes hp h x n.next xs;
  run = list_append-ok s hp h x n xs c apart e;
  chain = linked-Chain s.nodes hp h x n.next xs c apart fresh;
  same = linked-SameOutside s.nodes hp h x n.next xs;
}

-- LinkedListAppend of a node whose `next` is not NULL into an empty list: the node keeps that
-- `next`, and the list does not end there.
pub list_append-stale :
    (s : Store) (hp h x : ℕ) (n : Node)
    → Chain s.nodes hp h []
    → IsApart (x ∷ h ∷ [])
    → s.nodes x ≡ some n
    → n.next ≢ null
    → (nodes : ℕ → Option Node) × (list_append h x s ≡ ok tt (record s { nodes = nodes }))
      × (nodes x ≡ some (node h n.next))
      × ¬ Chain nodes hp h (x ∷ [])
list_append-stale s hp h x n c apart e stale = (
  linked s.nodes hp h x n.next [],
  list_append-ok s hp h x n [] c apart e,
  ground arith,
  λ chain. stale (ground (arith, chain.1)),
)
