-- ===== src/Data.antt =====
-- src/reactor/data.c: regions of memory.
mod Defs
pub mod Laws
unfoldable pub use Defs.*
