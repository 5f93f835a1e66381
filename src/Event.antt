-- ===== src/Event.antt =====
-- src/reactor/event.c: signals through a counter of the kernel.
mod Defs
unfoldable pub use Defs.*
pub mod Laws
