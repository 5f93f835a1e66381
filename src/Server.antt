-- ===== src/Server.antt =====
-- src/reactor/server.c: sessions that read requests and write responses, and the server that accepts
-- them.
mod Date
mod Session
mod Defs
unfoldable pub use Date.*
unfoldable pub use Session.*
unfoldable pub use Defs.*
pub mod Respond
pub mod Pipeline
pub mod Answers
mod Tests
