-- ===== src/Resolver.antt =====
-- src/reactor/resolver.c
mod Defs
unfoldable pub use Defs.*
mod Tests
