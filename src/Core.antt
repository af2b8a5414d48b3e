-- ===== src/Core.antt =====
-- The execution of instructions by RV64Core: modules/core/rv64/src/rv64_exec.cpp and its parts.
mod Alu
pub mod AluLaws
pub mod AluTotal
pub mod Encode
pub mod Inst
mod Opcodes
mod Functs
mod Exec
mod Memory
mod Jumps
mod Compute
mod Atomic
mod System
mod Immediates
mod Compressed
mod CompressedMemory
mod Step
mod Debug
pub mod DebugLaws
pub mod DebugFrame
pub mod Maintains
pub mod Preserves
pub mod PreservesSystem
pub mod PreservesCompressed
pub mod Invariants
pub mod StepLegal
pub mod StepBlank
pub mod StepUnchecked
pub mod StepIsolation
mod Equations
pub mod Runs
pub mod RegisterOps
pub mod Illegal
pub mod Branches
pub mod Interrupted
unfoldable pub use Alu.*
pub use Opcodes.*
pub use Functs.*
unfoldable pub use Exec.*
unfoldable pub use Memory.*
unfoldable pub use Jumps.*
unfoldable pub use Compute.*
unfoldable pub use Atomic.*
unfoldable pub use System.*
unfoldable pub use Immediates.*
unfoldable pub use Compressed.*
unfoldable pub use CompressedMemory.*
unfoldable pub use Step.*
unfoldable pub use Debug.*
