-- ===== src/Slab/Sizes.antt =====
-- Which cache a size gets.
use cubik_os.Prelude.{
  ℕ, zero, suc, ◌+◌, ◌≤◌, ◌<◌, ◌≡◌, refl, ◌⊎◌, inl, inr, ltb, none, some, List, get_or, arith, ◌∙◌,
  subst, dec_lt, lt→ltb, ℕ_discrete, if_true, if_false,
}
use cubik_os.Slab.Defs.{Slab, block_size, first_order, km_find_cache}

-- The order that is found has a larger block, and no order before it has one.
pub record IsFirst (blocks : List ℕ) (size n order found : ℕ) : Type 0 where
  pub from : order ≤ found
  pub below : found < order + n
  pub larger : size < get_or blocks found 0
  pub least : (i : ℕ) → order ≤ i → i < found → get_or blocks i 0 ≤ size

-- What the search finds, or that there is nothing to find.
AllSmall : List ℕ → ℕ → ℕ → ℕ → Type 0
AllSmall blocks size n order = (i : ℕ) → order ≤ i → i < order + n → get_or blocks i 0 ≤ size

module _ (blocks : List ℕ) (size : ℕ) where
  abbrev Searched : ℕ → ℕ → Type 0
  Searched n order =
      ((first_order blocks size n order ≡ none) × AllSmall blocks size n order)
      ⊎ ((found : ℕ) × (first_order blocks size n order ≡ some found)
          × IsFirst blocks size n order found)

  first_order-next :
      (n order : ℕ) → get_or blocks order 0 ≤ size → Searched n (order + 1) → Searched (suc n) order
  unfolding first_order AllSmall
  first_order-next n order small (inl (run, all)) = inl (
    if_false (ltb size (get_or blocks order 0)) _ _ (ground (arith, small)) ∙ run,
    λ i lo hi. elim (ℕ_discrete order i) [
      | yes same ↦ subst (λ i. get_or blocks i 0 ≤ size) same small
      | no other ↦ all i (omega arith) (omega arith)
    ],
  )
  first_order-next n order small (inr (found, run, first)) = inr (
    found,
    if_false (ltb size (get_or blocks order 0)) _ _ (ground (arith, small)) ∙ run,
    record {
      from = omega (arith, first.from);
      below = omega (arith, first.below);
      larger = first.larger;
      least = λ i lo hi. elim (ℕ_discrete order i) [
        | yes same ↦ subst (λ i. get_or blocks i 0 ≤ size) same small
        | no other ↦ first.least i (omega arith) hi
      ];
    },
  )

  first_order-Searched : (n order : ℕ) → Searched n order
  unfolding first_order AllSmall
  first_order-Searched zero order = inl (refl, λ i lo hi. absurd (omega arith))
  first_order-Searched (suc n) order = elim (dec_lt size (get_or blocks order 0)) [
    | yes lt ↦ inr (
      order,
      if_true (ltb size (get_or blocks order 0)) _ _ (lt→ltb size (get_or blocks order 0) lt),
      record {
        from = omega arith;
        below = omega arith;
        larger = lt;
        least = λ i lo hi. absurd (omega arith);
      },
    )
    | no ge ↦ first_order-next n order (omega arith) (first_order-Searched n (order + 1))
  ]

-- Every size below 8192 gets the cache of the first order whose blocks are strictly larger: a size
-- that is exactly a block's gets the next larger block.
pub km_find_cache-IsFirst :
    (thread_size junk size : ℕ) (slab : Slab)
    → size < 8192
    → (order : ℕ) × (km_find_cache thread_size junk size slab ≡ slab.pointers order)
      × IsFirst (block_size thread_size) size 16 0 order
unfolding km_find_cache AllSmall
km_find_cache-IsFirst thread_size junk size slab small =
    elim (first_order-Searched (block_size thread_size) size 16 0) [
      | inl (run, all) ↦ absurd (omega (arith, all 15 (omega arith) (omega arith)))
      | inr (order, run, first) ↦
          (order, if_false (ltb 8192 size) _ _ (ground (arith, small)) ∙ rw run refl, first)
    ]

-- KM_FindCache of 8192 bytes, which the guard lets through, returns what its uninitialised variable
-- holds: no block is larger.
pub km_find_cache-junk :
    (thread_size junk : ℕ) (slab : Slab) → km_find_cache thread_size junk 8192 slab ≡ junk
unfolding km_find_cache first_order
km_find_cache-junk thread_size junk slab = refl
