-- ===== src/Macros.antt =====
-- Kernel/include/macros.h: ALIGN_DOWN and ALIGN_UP on 64-bit addresses.
mod Laws
pub use Laws.{align_down-eq, align_up_lem, pow-add}
unfoldable pub use Laws.{align_down, align_up}
