-- ===== src/Stream.antt =====
-- src/reactor/stream.c: buffered input and output on a descriptor.
mod Defs
mod Output
mod Input
unfoldable pub use Defs.*
unfoldable pub use Output.*
unfoldable pub use Input.*
pub mod Append
pub mod Ready
pub mod Named
pub mod Flow
pub mod Run
pub mod Steps
pub mod Reach
pub mod Keeps
pub mod Tests
