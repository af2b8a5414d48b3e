-- ===== src/Rv64.antt =====
-- The data of the RV64 core: enumerations, register layouts, the TLB and the state of a hart.
mod Modes
mod State
pub mod Reset
pub mod MStatus
pub mod SStatus
pub mod IntPending
pub mod TrapVector
pub mod CounterEn
pub mod Misa
pub mod Satp
pub mod Pte
pub mod VAddr
unfoldable pub use Modes.*
unfoldable pub use State.*
