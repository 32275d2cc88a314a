-- ===== src/Memory.antt =====
-- The kernel's memory as the allocators see it: list nodes and page descriptors at addresses,
-- the free lists of Kernel/src/mm/page.c, and commands that read and write them.
-- A read or a write at an address that holds no such object is a fault. A spin lock that is held
-- is never released by the code that waits for it, so waiting is `hang`.
mod Defs
mod Rules
pub use Defs.{Node, node, Frame, Store, Run, ok, fault, hang, spent, Cmd, null}
unfoldable pub use Defs.{
  pure, and_then, ◌>>=◌, ◌>>◌, load_node, store_node, set_prev, set_next, load_frame, store_frame,
  load_count, store_count,
}
pub use Rules.*
