-- ===== src/Uart.antt =====
-- The Xilinx uartlite console.
mod Defs
pub mod Adapter
pub mod Terminal
pub mod Queues
unfoldable pub use Defs.*
