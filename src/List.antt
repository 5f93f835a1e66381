-- ===== src/List.antt =====
-- src/reactor/list.c: a doubly linked list, closed to a ring by the list's own node.
mod Defs
unfoldable pub use Defs.*
pub mod Fields
pub mod Chain
pub mod Links
pub mod Ring
pub mod Laws
pub mod Clear
mod Tests
