-- ===== src/LinkedList/Chain.antt =====
-- A list of Kernel/src/utils/list.c in memory: from the head the `next` pointers lead through the
-- nodes of a list to NULL, and each `prev` pointer leads back.
use cubik_os.Prelude.{
  ℕ, ◌≡◌, Bool, true, false, ◌||◌, ◌==◌, Option, some, List, [], ◌∷◌, arith, ◌∙◌,
}
use cubik_os.Memory.{Node, node, null}

abbrev pub has : ℕ → List ℕ → Bool
has a [] = false
has a (x ∷ xs) = (a == x) || has a xs

abbrev pub Distinct : List ℕ → Type 0
Distinct [] = Unit {0}
Distinct (x ∷ xs) = (has x xs ≡ false) × Distinct xs

-- The first node, or NULL.
abbrev pub first : List ℕ → ℕ
first [] = null
first (x ∷ xs) = x

-- The head `h`, whose own `prev` is `hp`, and the nodes `xs` behind it.
abbrev pub Chain : (ℕ → Option Node) → ℕ → ℕ → List ℕ → Type 0
Chain f hp h [] = f h ≡ some (node hp null)
Chain f hp h (x ∷ xs) = (f h ≡ some (node hp x)) × Chain f h x xs

-- Outside the listed addresses nothing changes.
abbrev pub SameOutside : List ℕ → (ℕ → Option Node) → (ℕ → Option Node) → Type 0
SameOutside xs f g = (a : ℕ) → has a xs ≡ false → g a ≡ f a

-- No address occurs twice, and none is NULL.
pub record IsApart (xs : List ℕ) : Type 0 where
  pub distinct : Distinct xs
  pub no_null : has null xs ≡ false

pub Chain-head :
    (f : ℕ → Option Node) (hp h : ℕ) (xs : List ℕ)
    → Chain f hp h xs
    → f h ≡ some (node hp (first xs))
Chain-head f hp h [] c = c
Chain-head f hp h (x ∷ xs) c = c.0

-- The head may be rewritten, if it still leads to the first node, which sees the same `prev`.
pub Chain-rehead :
    (f g : ℕ → Option Node) (hp hq h : ℕ) (xs : List ℕ)
    → Chain f hp h xs
    → g h ≡ some (node hq (first xs))
    → ((a : ℕ) → has a xs ≡ true → g a ≡ f a)
    → Chain g hq h xs
Chain-rehead f g hp hq h [] c e same = e
Chain-rehead f g hp hq h (x ∷ xs) c e same = (
  e,
  Chain-rehead f g h h x xs c.1 (same x (ground arith) ∙ Chain-head f h x xs c.1)
      (λ a i. same a (ground arith)),
)
