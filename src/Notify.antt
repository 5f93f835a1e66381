-- ===== src/Notify.antt =====
-- src/reactor/notify.c
mod Defs
mod Events
unfoldable pub use Defs.*
unfoldable pub use Events.*
pub mod Sound
pub mod Add
pub mod Remove
pub mod Told
pub mod Each
mod Tests
