-- ===== src/Map.antt =====
-- src/reactor/map.c
mod Defs
pub mod Ring
pub mod Slots
pub mod Probe
pub mod Store
pub mod Copy
pub mod Grow
pub mod Hole
pub mod Move
pub mod Shift
pub mod Emptied
pub mod Erase
pub mod Lookup
pub mod View
pub mod Table
unfoldable pub use Defs.*
