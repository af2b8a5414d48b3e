-- ===== src/Lib.antt =====
-- M-EMU, an emulator of an RV64 machine: a hart with its privileged architecture, a core-local
-- interruptor, a platform-level interrupt controller, a console and a memory on a bus. Paths are
-- from the repository's root; those that begin with modules are in M-EMU, and the ones of the
-- hart in M-EMU/modules/core/rv64.
--
-- The hart executes instructions; before each of them it takes in its interrupt lines and may
-- raise an interrupt. It reaches the memory and the devices through its MMU and the bus. The two
-- controllers (M-EMU/modules/intc) and the console (M-EMU/modules/dev/uartlite) are devices behind
-- addresses: the hart reads and writes their registers as bytes, and the state of the controllers
-- drives the lines.
--
-- Which file models which part:
--   Base      Booleans, comparisons, lists with the index operations of arrays, and hash maps
--   Words     bit-fields of a register (the unions of rv64_csr_structs.h), bits of a word, copies
--             of several fields, and words as little-endian bytes (memcpy)
--   Rv64      the enumerations, the state of the core and of its MMU, the layouts of the
--             registers, reset (include/*.h, src/rv64_common.cpp)
--   Csr       the control and status registers: csr_read, csr_write, csr_setbit, csr_clearbit,
--             csr_op_permission_check (inline_impl/rv64_privilege.hpp)
--   Trap      preExec, raiseTrap, ecall, ebreak, mret, sret (the same file)
--   Mmu       RV64SV39_MMU: TLB, page walk, loads, stores, fetches, flush with sfence_vma
--             (inline_impl/rv64_sv39.hpp) and atomic operations (inline_impl/rv64_amo.hpp), over
--             the record SysBus of what the bus offers
--   Core      the execution of instructions: Alu (inline_impl/rv64_common.hpp), Inst, Opcodes and
--             Functs (include/rv64_inst.h), memRead, memWrite and setGPR (include/RV64Core.h), and
--             Step_CoreAPI with one definition per case of its two switches
--             (src/rv64_exec.cpp: Memory, Jumps, Compute, Atomic, System, Immediates, Compressed,
--             CompressedMemory, Step); Exec is the monad they are written in, Debug the access of
--             the debugger (src/rv64_debug.cpp), Maintains the rules by which an action keeps a
--             property of the hart, the other files are its theorems
--   Bus       MEmu_MMIOBus (modules/bus/default/include/MMIOBus_Impl.hpp) and the addresses of
--             MMIODev_I (M-EMU/include/interface/MMIO_Dev.h), over the record Devices
--   Ram       MEmu_MMIO_Mem (modules/dev/ram/include/MMIOMem_Impl.hpp)
--   Device    the result of a register access
--   Clint     RVCoreLocalInt (modules/intc/rv_clint/include/RVCoreLocalInt.hpp)
--   Plic      RVPLICtrl (modules/intc/rv_plic/include/RVPLICtrl.hpp)
--   Uart      uartlite (modules/dev/uartlite/include/uartlite.hpp)
--   Intc      CemuClintAdapter and CemuPlicAdapter (modules/intc/*/include/*_CEmuAdapter.h): the
--             registration of devices, the accesses from the bus, the polling of the devices and
--             the lines of the harts
--   Uart.Adapter  CemuUartAdapter (modules/dev/uartlite/include/MMIODev_CemuUartAdapter.hpp)
--   Platform  DefaultPlatform (modules/platform/default/include/DefaultPlatform.hpp): Loop its loop
--             over the record Machine of what the harts share behind the bus, Boot its constructor
--   Factory   the search for a module (M-EMU/include/misc/obj_factory.hpp)
--   Gdb       the GDB stub: Text the conversions of the C library, Rsp the packets
--             (M-EMU/src/gdb_stub/gdb_rsp.cpp), Link receiving and sending (GDBStub_utils.cpp),
--             Commands the commands (GDBStub_cmds.cpp), Stub the loop (GDBStub_common.cpp)
--   Tests     the theorems at concrete inputs
--
-- How the code corresponds to the model: a method takes the state of its object as the last
-- argument and returns the new one. A 64-bit word is a natural number, and the operations that
-- can overflow write the remainder by 2 ^ 64 out. A failed assertion is `none`, or `aborted` for a
-- write of a register; the result `false` is `refused` or `failed`; an access outside an array or
-- an object is `fault`. Pointers to devices and to TLB entries are indices of them, and a hash map
-- is the list of its insertions; a std::map is a list in the order of its keys. The loops run over a
-- fixed range or a list and the page walk over its levels: they are structural recursions. Two loops
-- take fuel: the one of the UART adapter that empties the queue of the console, for which the length
-- of the queue is enough, and the one of the command c, which ends when the hart reaches a watch
-- point and for which the number of steps to it is enough. The endless loops of the platform and of
-- the stub run for a number of rounds. The controllers are generic in their numbers of harts,
-- sources and contexts, as the templates are.
--
-- Step_CoreAPI is an action on the hart and the memory behind the bus; a case of its switches leaves
-- the flags is_new_pc_set and is_instr_illegal as a value of Outcome, of which at most one is set.
-- An operation of int64_t that overflows wraps around.
--
-- The regular expressions of the stub are functions that decide their languages; the socket is the
-- characters that come in and the texts that were written. What sscanf leaves in a variable that it
-- writes past, CONFIG_DEBUG_ENABLE, and how many bytes of the stack the buffers of cmd_MemRead may
-- take, past which it is aborted, are parameters; what a compiler adds to align a buffer is not
-- counted.
--
-- What is not modelled: the loading of shared libraries, so that the constructor of the platform
-- takes the instances that the modules construct; the opening of sockets; the names of the
-- registers, which are only shown. UpdateIntState of the adapters writes through the pointers that
-- AttachCoreIntStatus stored: it takes the lines of both harts as a record. The mutexes of the
-- console serialise its calls, so that each call is one step.
pub mod Base
pub mod Words
pub mod Rv64
pub mod Csr
pub mod Trap
pub mod Device
pub mod Clint
pub mod Plic
pub mod Uart
pub mod Bus
pub mod Ram
pub mod Mmu
pub mod Core
pub mod Intc
pub mod Gdb
pub mod Factory
pub mod Platform
mod Tests
