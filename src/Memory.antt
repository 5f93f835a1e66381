-- ===== src/Memory.antt =====
-- A block of memory: its operations of the C library, and their laws.
mod Defs
pub mod Blocks
unfoldable pub use Defs.*
