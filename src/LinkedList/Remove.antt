-- ===== src/LinkedList/Remove.antt =====
-- LinkedListRemove at any position of a well-formed list.
use cubik_os.Prelude.{ℕ, ◌≡◌, Option, some, List, [], ◌∷◌, ◌++◌, arith, update}
use cubik_os.Memory.{Node, node, Store, null, ok, set_prev, set_next, load_node, store_node}
use cubik_os.LinkedList.Defs.{list_remove}
use cubik_os.LinkedList.Chain.{first, Chain, SameOutside, IsApart, Chain-head, Chain-rehead}

-- The node map after the node between `h` and the first of `ys` has been taken out.
abbrev pub unlinked : (ℕ → Option Node) → ℕ → ℕ → List ℕ → ℕ → Option Node
unlinked f hp h [] = update f h (some (node hp null))
unlinked f hp h (y ∷ ys) = update (update f h (some (node hp y))) y (some (node h (first ys)))

-- What `list_remove x` leaves of a list with head `h` that held `before` and is to hold `after`.
pub record Removed (s : Store) (hp h x : ℕ) (before after : List ℕ) : Type 0 where
  pub nodes : ℕ → Option Node
  pub run : list_remove x s ≡ ok tt (record s { nodes = nodes })
  pub chain : Chain nodes hp h after
  pub same : SameOutside (h ∷ before) s.nodes nodes
  pub stale : nodes x ≡ s.nodes x

module _ (s : Store) (hp h x : ℕ) where
  remove_first :
      (ys : List ℕ)
      → Chain s.nodes hp h (x ∷ ys)
      → IsApart (h ∷ x ∷ ys)
      → Removed s hp h x (x ∷ ys) ys
  unfolding list_remove set_prev set_next load_node store_node
  remove_first [] c apart = record {
    nodes = unlinked s.nodes hp h [];
    run = ground arith;
    chain = ground arith;
    same = λ a out. ground arith;
    stale = ground arith;
  }
  remove_first (y ∷ ys) c apart = record {
    nodes = unlinked s.nodes hp h (y ∷ ys);
    run = ground (arith, Chain-head s.nodes x y ys c.1.1);
    chain = (
      ground arith,
      Chain-rehead s.nodes (unlinked s.nodes hp h (y ∷ ys)) x h y ys c.1.1 (ground arith)
          (λ a i. ground arith),
    );
    same = λ a out. ground arith;
    stale = ground arith;
  }

  -- The same at any depth: only the head's own node is seen from outside, so the proof walks
  -- down the list.
  remove_at :
      (z : ℕ) (ys zs : List ℕ)
      → Removed s h z x (zs ++ x ∷ ys) (zs ++ ys)
      → Chain s.nodes hp h (z ∷ zs ++ x ∷ ys)
      → IsApart (h ∷ z ∷ zs ++ x ∷ ys)
      → Removed s hp h x (z ∷ zs ++ x ∷ ys) (z ∷ zs ++ ys)
  remove_at z ys zs rest c apart = record {
    nodes = rest.nodes;
    run = rest.run;
    chain = (ground (arith, rest.same h), rest.chain);
    same = λ a out. ground (arith, rest.same a);
    stale = rest.stale;
  }

-- LinkedListRemove on a well-formed list takes the node out wherever it stands, leaves a
-- well-formed list of the others, writes only nodes of the list, and leaves the node's own
-- links as they were.
pub list_remove-Removed :
    (s : Store) (hp h x : ℕ) (zs ys : List ℕ)
    → Chain s.nodes hp h (zs ++ x ∷ ys)
    → IsApart (h ∷ zs ++ x ∷ ys)
    → Removed s hp h x (zs ++ x ∷ ys) (zs ++ ys)
list_remove-Removed s hp h x [] ys c apart = remove_first s hp h x ys c apart
list_remove-Removed s hp h x (z ∷ zs) ys c apart =
    remove_at s hp h x z ys zs
      (list_remove-Removed s h z x zs ys c.1
        (record { distinct = apart.distinct.1; no_null = ground (arith, apart.no_null) }))
      c apart
