-- ===== src/Clint.antt =====
-- The core-local interruptor.
mod Defs
pub mod Valid
pub mod Registers
unfoldable pub use Defs.*
