-- ===== src/Object.antt =====
-- src/reactor/object.c: objects that count their references.
mod Defs
pub mod Laws
mod Tests
unfoldable pub use Defs.*
