-- ===== src/Words.antt =====
-- 64-bit words as native numbers: bit tests, bit-fields of a C struct, the bitwise operators.
mod Fields
mod Bits
mod Copy
mod Bytes
mod Signed
mod Bounds
unfoldable pub use Fields.*
unfoldable pub use Bits.*
pub use Copy.*
unfoldable pub use Bytes.*
pub use Signed.*
pub use Bounds.*
