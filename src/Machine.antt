-- ===== src/Machine.antt =====
-- The state of the kernel's memory management as a whole, and commands over it: the allocator's
-- store, the page tables of Kernel/arch/x86_64/paging.c, the bitmap of the kernel's virtual pages
-- and the counters of the kernel process.
mod Defs
pub use Defs.{Entry, Machine, Outcome, ok, fault, hang, spent, Act, lift}
unfoldable pub use Defs.{pure, and_then, ◌>>=◌, ◌>>◌}
