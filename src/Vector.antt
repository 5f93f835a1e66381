-- ===== src/Vector.antt =====
-- src/reactor/vector.c: objects of one size in a buffer.
mod Defs
pub mod Laws
pub mod Erase
mod Tests
unfoldable pub use Defs.*
