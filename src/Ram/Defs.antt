-- ===== src/Ram/Defs.antt =====
-- MEmu_MMIO_Mem (M-EMU/modules/dev/ram/include/MMIOMem_Impl.hpp). The size of the memory is the
-- length of `mem_data`; an access outside it, which the code does not test, is a fault.
use m_emu.Base.{ℕ, List, length}
use m_emu.Device.{Access, copy_out, copy_in, map_access}

pub record MmioMem : Type 0 where
  pub mem_data : List ℕ
  pub memory_size : ℕ

-- `new` leaves the bytes as they are: they are `bytes`, of which there are memory_size.
unfoldable pub create : List ℕ → MmioMem
create bytes = record { mem_data = bytes; memory_size = length bytes }

unfoldable pub read_buffer : ℕ → ℕ → MmioMem → Access (List ℕ)
read_buffer begin_addr size m = copy_out begin_addr size m.mem_data

unfoldable pub write_buffer : ℕ → List ℕ → MmioMem → Access MmioMem
write_buffer begin_addr buffer m =
    map_access (λ bytes. record m { mem_data = bytes }) (copy_in begin_addr buffer m.mem_data)
