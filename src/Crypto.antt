-- ===== src/Crypto.antt =====
-- The cryptographic crates the program calls, `sha2` and `k256`, as interfaces, and what a hash over
-- several parts determines.
mod Primitives
mod Binding
unfoldable pub use Primitives.*
pub use Binding.*
