-- ===== src/Maps.antt =====
-- src/reactor/maps.c: the table with strings as keys. An entry with no key is the empty element.
mod Defs
pub mod View
pub mod Laws
mod Tests
unfoldable pub use Defs.*
