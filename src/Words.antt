-- ===== src/Words.antt =====
-- `size_t` and `uint64_t` arithmetic: values below 2 ^ 64, wrapping, and the shift-and-or
-- statement of `buffer_roundup` and `map_roundup`.
mod Smear
mod Defs
unfoldable pub use Defs.*
pub use Smear.*
