-- ===== src/Queue.antt =====
-- src/reactor/queue.c: elements of one size through a pipe, from producers to consumers.
mod Producer
mod Consumer
unfoldable pub use Producer.*
unfoldable pub use Consumer.*
pub mod Flow
pub mod Leads
pub mod Run
pub mod Steps
pub mod Pops
mod Tests
