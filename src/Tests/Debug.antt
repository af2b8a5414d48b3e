-- ===== src/Tests/Debug.antt =====
-- The theorems on the debugger at concrete inputs.
use m_emu.Base.{ℕ, true, some, List, [], ◌∷◌, replicate}
use m_emu.Rv64.{Rv64Core}
use m_emu.Mmu.{SysBus}
use m_emu.Core.{Hart, debug_mem_read, debug_mem_write}
use m_emu.Core.Maintains.{After}
use m_emu.Core.DebugFrame.{IsSameButMmu, debug_mem-IsSameButMmu}
use m_emu.Tests.Samples.{user_core}

abbrev stopped : Rv64Core
stopped = record user_core { gpr = 0 ∷ replicate 31 7; current_program_counter = 0x80000010 }

abbrev cell_bus : SysBus (List ℕ)
cell_bus = record { read = λ addr size m. (m, some m); write = λ addr bytes m. (bytes, true) }

abbrev stopped_hart : Hart (List ℕ)
stopped_hart = record { core = stopped; mem = 9 ∷ [] }

debug_mem-IsSameButMmu_example :
    After (IsSameButMmu stopped) (debug_mem_read cell_bus 0x80000000 1 stopped_hart)
    × After (IsSameButMmu stopped) (debug_mem_write cell_bus 0x80000000 (3 ∷ []) stopped_hart)
debug_mem-IsSameButMmu_example = debug_mem-IsSameButMmu cell_bus 0x80000000 1 (3 ∷ []) stopped_hart
