-- ===== src/Trap.antt =====
-- Traps, the return instructions and the interrupt check before an instruction.
mod Raise
mod Return
mod Interrupt
pub mod RoundTrip
pub mod SRoundTrip
pub mod Entry
pub mod Privilege
pub mod Total
pub mod Check
pub mod Policy
pub mod Taken
unfoldable pub use Raise.*
unfoldable pub use Return.*
unfoldable pub use Interrupt.*
