-- ===== src/Csr.antt =====
-- The control and status registers.
mod Addr
mod Access
pub mod Legal
pub mod Effect
pub mod Isolation
unfoldable pub use Addr.*
unfoldable pub use Access.*
