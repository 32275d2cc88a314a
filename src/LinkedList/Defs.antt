-- ===== src/LinkedList/Defs.antt =====
-- Kernel/src/utils/list.c: intrusive doubly linked lists.
use cubik_os.Prelude.{ℕ, ◌||◌, ◌==◌, if◌then◌else◌}
use cubik_os.Memory.{Cmd, null, pure, ◌>>=◌, ◌>>◌, load_node, set_prev, set_next}

-- LinkedListRemove: the neighbours of the node are linked with one another.
unfoldable pub list_remove : ℕ → Cmd (Unit {0})
list_remove p = do
  n ← load_node p
  if n.prev == null then pure tt else set_next n.prev n.next
  if n.next == null then pure tt else set_prev n.next n.prev

-- LinkedListAppend: the node is linked in behind `current`.
unfoldable pub list_append : ℕ → ℕ → Cmd (Unit {0})
list_append current p = if (current == null) || (p == null) then pure tt else do
  set_prev p current
  c ← load_node current
  if c.next == null then pure tt else (do set_next p c.next; set_prev c.next p)
  set_next current p
