-- ===== src/Gdb.antt =====
-- The GDB stub: M-EMU/src/gdb_stub and M-EMU/include/sdk/gdb_stub.
mod Text
mod Rsp
mod Link
mod Commands
mod Stub
pub mod Hex
pub mod Framing
pub mod Retries
pub mod Registers
pub mod Patterns
pub mod Rounds
pub mod Continue
pub mod Answers
unfoldable pub use Text.*
unfoldable pub use Rsp.*
unfoldable pub use Link.*
unfoldable pub use Commands.*
unfoldable pub use Stub.*
