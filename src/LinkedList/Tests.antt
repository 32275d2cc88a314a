-- ===== src/LinkedList/Tests.antt =====
-- The linked list run on small lists.
use cubik_os.Prelude.{◌==◌, if◌then◌else◌, Option, some, [], ◌∷◌, refl, arith}
use cubik_os.Memory.{node, Store}
use cubik_os.LinkedList.Append.{Appended, list_append-Appended}
use cubik_os.LinkedList.Remove.{Removed, list_remove-Removed}

-- The head at 8, the nodes at 16 and 24 behind it, and a single node at 32.
abbrev sample : Store
sample = record {
  nodes = λ a.
      if a == 8
      then some (node 0 16)
      else if a == 16
      then some (node 8 24)
      else if a == 24
      then some (node 16 0)
      else if a == 32
      then some (node 0 99)
      else some (node 0 0);
  frames = λ a. Option.none;
  count = λ k. 0;
  pf_freelist = 0;
}

list_append-Appended_example : Appended sample 0 8 32 (16 ∷ 24 ∷ [])
list_append-Appended_example =
    list_append-Appended sample 0 8 32 (node 0 99) (16 ∷ 24 ∷ []) (refl, (refl, refl))
      (record { distinct = ground arith; no_null = ground arith }) refl (λ e. ground (arith, e))

list_remove-Removed_example : Removed sample 0 8 24 (16 ∷ 24 ∷ []) (16 ∷ [])
list_remove-Removed_example =
    list_remove-Removed sample 0 8 24 (16 ∷ []) [] (refl, (refl, refl))
      (record { distinct = ground arith; no_null = ground arith })
