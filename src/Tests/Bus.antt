-- ===== src/Tests/Bus.antt =====
-- The theorems on the bus and the memory at concrete inputs.
use m_emu.Base.{◌≡◌, refl, true, false, [], ◌∷◌, find_key, arith}
use m_emu.Device.{done}
use m_emu.Bus.{
  MmioDev, MmioBus, is_addr_region_conflict, is_addr_in_range, find_dev_according_to_addr,
}
use m_emu.Bus.Lookup.{CacheIsValid, linear, find_dev_according_to_addr-linear}
use m_emu.Ram.{MmioMem, read_buffer, write_buffer}
use m_emu.Ram.Laws.{read_buffer-write_buffer}

abbrev clint_dev : MmioDev
clint_dev = record { dev_base_addr = 0x2000000; addr_region_size = 0x10000 }

abbrev ram_dev : MmioDev
ram_dev = record { dev_base_addr = 0x80000000; addr_region_size = 0x8000000 }

abbrev inner_dev : MmioDev
inner_dev = record { dev_base_addr = 0x80001000; addr_region_size = 16 }

abbrev two_devs : MmioBus
two_devs = record {
  objects = ram_dev ∷ clint_dev ∷ [];
  mmio_devs = 1 ∷ 0 ∷ [];
  dev_find_cache = [];
}

two_devs-CacheIsValid : CacheIsValid two_devs
unfolding CacheIsValid find_key
two_devs-CacheIsValid = λ addr h e. absurd (grind arith)

find_dev_according_to_addr-linear_example :
    ((find_dev_according_to_addr 0x80000008 two_devs).1 ≡ linear two_devs 0x80000008)
    × CacheIsValid (find_dev_according_to_addr 0x80000008 two_devs).0
find_dev_according_to_addr-linear_example =
    find_dev_according_to_addr-linear 0x80000008 two_devs two_devs-CacheIsValid

ram_range : is_addr_in_range ram_dev 0x80000008 ≡ true
unfolding is_addr_in_range
ram_range = refl

apart_1 : is_addr_region_conflict ram_dev clint_dev ≡ false
unfolding is_addr_region_conflict
apart_1 = refl

apart_2 : is_addr_region_conflict clint_dev ram_dev ≡ false
unfolding is_addr_region_conflict
apart_2 = refl

abbrev small : MmioMem
small = record { mem_data = 1 ∷ 2 ∷ 3 ∷ 4 ∷ []; memory_size = 4 }

read_buffer-write_buffer_example :
    (n : MmioMem) × (write_buffer 1 (8 ∷ 9 ∷ []) small ≡ done n)
    × (read_buffer 1 2 n ≡ done (8 ∷ 9 ∷ []))
read_buffer-write_buffer_example = read_buffer-write_buffer 1 (8 ∷ 9 ∷ []) small (omega arith)
