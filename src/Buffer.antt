-- ===== src/Buffer.antt =====
-- src/reactor/buffer.c: bytes in a block that grows.
mod Defs
pub mod Laws
pub mod Insert
pub mod Size
mod Tests
unfoldable pub use Defs.*
