-- ===== src/Timer.antt =====
-- src/reactor/timer.c: a user of the reactor that is called at a time, and then again at intervals.
mod Defs
pub mod Laws
mod Tests
unfoldable pub use Defs.*
