-- ===== src/Mapi.antt =====
-- src/reactor/mapi.c: the table with integer keys. A value of key 0 is the empty element.
pub mod View
pub mod Laws
mod Tests
mod Defs
unfoldable pub use Defs.*
