-- ===== src/Ram.antt =====
-- The memory.
mod Defs
pub mod Laws
unfoldable pub use Defs.*
