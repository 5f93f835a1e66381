-- ===== src/Hash.antt =====
-- src/reactor/hash.c: the hashes of an integer and of bytes.
mod Defs
pub mod Short
pub mod Long
pub mod Safe
mod Tests
unfoldable pub use Defs.*
unfoldable pub use Long.{hash_data, hash_string}
