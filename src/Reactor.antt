-- ===== src/Reactor.antt =====
-- src/reactor/reactor.c: the ring of requests to the kernel, and the reactor.
mod Defs
pub mod Ring
pub mod State
pub mod Files
pub mod Sockets
pub mod Queued
pub mod Ready
pub mod Serve
pub mod Cancel
pub mod Operation
pub mod Every
pub mod Loop
pub mod Tests
unfoldable pub use Defs.*
