-- ===== src/Memory/Rules.antt =====
-- What each access does at an address that holds the object.
use cubik_os.Prelude.{ℕ, ◌≡◌, none, some, update, arith}
use cubik_os.Memory.Defs.{
  Node, node, Frame, Store, ok, fault, load_node, set_prev, set_next, load_frame, store_node,
}

module _ (s : Store) (p : ℕ) {n : Node} (e : s.nodes p ≡ some n) where
  pub load_node-ok : load_node p s ≡ ok n s
  unfolding load_node
  load_node-ok = ground arith

  pub set_prev-ok :
      (q : ℕ)
      → set_prev p q s ≡ ok tt (record s { nodes = update s.nodes p (some (node q n.next)) })
  unfolding set_prev load_node store_node
  set_prev-ok q = ground arith

  pub set_next-ok :
      (q : ℕ)
      → set_next p q s ≡ ok tt (record s { nodes = update s.nodes p (some (node n.prev q)) })
  unfolding set_next load_node store_node
  set_next-ok q = ground arith

module _ (s : Store) (p : ℕ) {f : Frame} (e : s.frames p ≡ some f) where
  pub load_frame-ok : load_frame p s ≡ ok f s
  unfolding load_frame
  load_frame-ok = ground arith

pub load_frame-fault : (s : Store) (p : ℕ) → s.frames p ≡ none → load_frame p s ≡ fault
unfolding load_frame
load_frame-fault s p e = ground arith
