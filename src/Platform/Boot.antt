-- ===== src/Platform/Boot.antt =====
-- The constructor of DefaultPlatform, with the instances that GetInstance_API of the modules
-- (M-EMU/modules/*/*/include/module_manifest.hpp) constructs. What the factory loads is those
-- instances; the words and bytes that the constructors leave uninitialised and the boot image are
-- arguments. `none` is a failed assertion or an access outside an object.
use m_emu.Base.{ℕ, ◌*◌, ◌%◌, ◌^◌, false, Option, none, some, List, [], ◌∷◌, map}
use m_emu.Device.{Access, done, failed, fault}
use m_emu.Rv64.{Rv64Core, TlbEntry}
use m_emu.Rv64.Reset.{reset, write_program_counter, set_gpr}
use m_emu.Bus.{MmioBus, register_dev}
use m_emu.Ram.{MmioMem, write_buffer}
use m_emu.Ram
use m_emu.Uart
use m_emu.Uart.Adapter.{CemuUartAdapter}
use m_emu.Clint
use m_emu.Plic
use m_emu.Intc
use m_emu.Intc.Attach.{Attached, unattached, attach_core_int_status}
use m_emu.Intc.ClintAdapter.{CemuClintAdapter}
use m_emu.Intc.PlicAdapter.{CemuPlicAdapter}
use m_emu.Platform.Loop.{DefaultPlatform}

-- What is behind the bus.
pub record Shared : Type 0 where
  pub bus : MmioBus
  pub ram : MmioMem
  pub uart : CemuUartAdapter
  pub clint : CemuClintAdapter
  pub plic : CemuPlicAdapter
  pub clint_lines : Attached
  pub plic_lines : Attached

-- The sizes of the regions.
abbrev pub ram_size : ℕ
ram_size = 1024 * 1024 * 4096

abbrev pub uart_size : ℕ
uart_size = 1024 * 1024

abbrev pub clint_size : ℕ
clint_size = 0x10000

abbrev pub plic_size : ℕ
plic_size = 0x4000000

-- Pointers to the devices.
abbrev pub ram_dev : ℕ
ram_dev = 0

abbrev pub uart_dev : ℕ
uart_dev = 1

abbrev pub clint_dev : ℕ
clint_dev = 2

abbrev pub plic_dev : ℕ
plic_dev = 3

-- The constructors of RV64Core and of its MMU.
unfoldable pub new_core : ℕ → Rv64Core → Rv64Core
new_core hart_id raw = reset (record raw {
  rv_hart_id = hart_id % 2 ^ 16;
  int_status = record { meip = false; msip = false; mtip = false; seip = false };
  sv39_mmu = record raw.sv39_mmu {
    tlb = map (λ (e : TlbEntry). record e { pagesize = 0 }) raw.sv39_mmu.tlb;
    tlb_get_cache = [];
    last_swapped_index = 0;
    lr_valid = false;
  };
})

-- The constructor of the bus, and the devices before they are registered.
abbrev pub empty_bus : MmioBus
empty_bus = record {
  objects =
      record { dev_base_addr = 0; addr_region_size = ram_size }
      ∷ record { dev_base_addr = 0; addr_region_size = uart_size }
      ∷ record { dev_base_addr = 0; addr_region_size = clint_size }
      ∷ record { dev_base_addr = 0; addr_region_size = plic_size }
      ∷ [];
  mmio_devs = [];
  dev_find_cache = [];
}

infixl 10 ◌>>=◌
abbrev ◌>>=◌ : {A B : Type 0} → Option A → (A → Option B) → Option B
none >>= k = none
some a >>= k = k a

abbrev pub loaded : Access MmioMem → Option MmioMem
loaded (done m) = some m
loaded failed = none
loaded fault = none

-- "Register devs to bus" and "Register intcs to bus".
unfoldable pub map_devices : Option MmioBus
map_devices = do
  with_ram ← register_dev ram_dev 0x80000000 empty_bus
  with_uart ← register_dev uart_dev 0x60100000 with_ram
  with_clint ← register_dev clint_dev 0x2000000 with_uart
  register_dev plic_dev 0xc000000 with_clint

-- The lines of hart 0, and of hart 1, with an interrupt controller.
unfoldable pub attach_harts : Option Attached
attach_harts = do first ← attach_core_int_status 0 0 unattached; attach_core_int_status 1 1 first

-- The parts of the platform; the console raises interrupt 1.
unfoldable pub assemble :
    Rv64Core → Rv64Core → MmioMem → MmioBus → Attached → Attached → DefaultPlatform Shared
assemble core0 core1 ram bus clint_lines plic_lines = record {
  core0 = core0;
  core1 = core1;
  mem = record {
    bus = bus;
    ram = ram;
    uart = record { uart = m_emu.Uart.create; addr_region_size = uart_size };
    clint = record {
      int_ctrl = m_emu.Clint.create 2;
      int_dev_map = [];
      addr_region_size = clint_size;
    };
    plic = record {
      int_ctrl = m_emu.Plic.create 4 4;
      int_dev_map = (m_emu.Intc.register_dev 1 uart_dev []).0;
      addr_region_size = plic_size;
    };
    clint_lines = clint_lines;
    plic_lines = plic_lines;
  };
  counter = 0;
}

unfoldable pub boot : Rv64Core → Rv64Core → List ℕ → List ℕ → Option (DefaultPlatform Shared)
boot raw0 raw1 memory image = do
  core1 ← set_gpr 10 1 (write_program_counter 0x80000000 (new_core 1 raw1))
  ram ← loaded (write_buffer 0 image (m_emu.Ram.create memory))
  bus ← map_devices
  clint_lines ← attach_harts
  plic_lines ← attach_harts
  some (
      assemble (write_program_counter 0x80000000 (new_core 0 raw0)) core1 ram bus clint_lines
        plic_lines)
