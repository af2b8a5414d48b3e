-- ===== src/Mmu.antt =====
-- Address translation.
mod Tlb
mod Walk
mod Access
mod Amo
pub mod Cache
pub mod Sound
pub mod Table
pub mod Search
pub mod Returns
pub mod Flush
pub mod Reservation
pub mod Frame
unfoldable pub use Tlb.*
unfoldable pub use Walk.*
unfoldable pub use Access.*
unfoldable pub use Amo.*
