-- ===== src/Pool.antt =====
-- src/reactor/pool.c: objects of one size, handed out from chunks.
mod Defs
pub mod Laws
pub mod Address
pub mod Distinct
pub mod Tests
unfoldable pub use Defs.*
