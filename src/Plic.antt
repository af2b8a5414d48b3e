-- ===== src/Plic.antt =====
-- The platform-level interrupt controller.
mod Defs
pub mod Scan
pub mod Claim
unfoldable pub use Defs.*
