-- ===== src/Tests.antt =====
-- Tests, and the theorems at concrete inputs.
mod Samples
mod Csr
mod Trap
mod Plic
mod Uart
mod Bus
mod Mmu
mod Amo
mod Step
mod Debug
mod Intc
mod Gdb
mod Terminal
mod Platform
