-- ===== src/Http.antt =====
-- src/reactor/http.c: requests are read, responses written.
mod Number
mod Write
mod Read
unfoldable pub use Number.*
unfoldable pub use Write.*
unfoldable pub use Read.*
pub mod Bits
pub mod Digits
pub mod Decimal
pub mod Push
pub mod Response
pub mod Hex
pub mod Chunks
pub mod Dechunk
pub mod Joined
pub mod Bodies
mod Tests
