-- ===== src/Bus.antt =====
-- The memory-mapped bus.
mod Defs
pub mod Lookup
pub mod Regions
unfoldable pub use Defs.*
