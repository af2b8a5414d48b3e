-- ===== src/Platform/Booted.antt =====
-- What the constructor of the platform leaves.
use m_emu.Base.{
  ℕ, replicate, find_key, ◌%◌, ◌^◌, ◌≤◌, ◌≡◌, refl, ◌∙◌, ◌&&◌, Option, none, some, List, [], ◌∷◌,
  length, length-map, leb, if◌then◌else◌, arith, set,
}
use m_emu.Words.{get_field}
use m_emu.Device.{done}
use m_emu.Rv64.{Rv64Core}
use m_emu.Rv64.Reset.{reset, write_program_counter, set_gpr, set_gpr_lem, gpr_at, GprIsValid}
use m_emu.Csr.Legal.{IsLegal, reset-IsLegal}
use m_emu.Mmu.Cache.{TlbIsValid}
use m_emu.Bus.{MmioBus, find_dev_according_to_addr, register_dev, first_in_range, is_addr_in_range}
use m_emu.Bus.Lookup.{find_dev_according_to_addr-linear, linear, CacheIsValid}
use m_emu.Ram
use m_emu.Ram.{read_buffer, write_buffer}
use m_emu.Ram.Laws.{read_buffer-write_buffer}
use m_emu.Intc.Attach.{Attached, attach_core_int_status}
use m_emu.Core.StepUnchecked.{IsBlank}
use m_emu.Platform.Loop.{DefaultPlatform}
use m_emu.Platform.Boot.{
  Shared, ram_size, uart_size, clint_size, plic_size, ram_dev, uart_dev, clint_dev, plic_dev,
  new_core, map_devices, attach_harts, assemble, boot,
}
use m_emu.Platform.Valid.{IsValid}

-- The addresses of the devices, with the end of each region as the bus counts it.
abbrev pub memory_map : ℕ → Option ℕ
memory_map addr =
    if leb 0x2000000 addr && leb addr 0x2010000
    then some clint_dev
    else if leb 0xc000000 addr && leb addr 0x10000000
    then some plic_dev
    else if leb 0x60100000 addr && leb addr 0x60200000
    then some uart_dev
    else if leb 0x80000000 addr && leb addr 0x180000000
    then some ram_dev
    else none

-- A hart at the start of the memory.
pub record Starts (s : Rv64Core) (hart_id arg : ℕ) : Type 0 where
  pub pc : s.current_program_counter ≡ 0x80000000
  pub id : s.rv_hart_id ≡ hart_id
  pub argument : gpr_at s 10 ≡ arg
  pub blank : IsBlank s
  pub tlb : TlbIsValid s.sv39_mmu

pub record Booted (image : List ℕ) (p : DefaultPlatform Shared) : Type 0 where
  pub valid : IsValid p
  pub hart0 : Starts p.core0 0 0
  pub hart1 : Starts p.core1 1 1
  pub addresses : (addr : ℕ) → (find_dev_according_to_addr addr p.mem.bus).1 ≡ memory_map addr
  pub loaded_image : read_buffer 0 (length image) p.mem.ram ≡ done image
  pub clint_core0 : p.mem.clint_lines.core0_int_status ≡ some 0
  pub clint_core1 : p.mem.clint_lines.core1_int_status ≡ some 1
  pub plic_core0 : p.mem.plic_lines.core0_int_status ≡ some 0
  pub plic_core1 : p.mem.plic_lines.core1_int_status ≡ some 1

-- The bus with its four devices, in the order of their addresses.
abbrev mapped_bus : MmioBus
mapped_bus = record {
  objects =
      record { dev_base_addr = 0x80000000; addr_region_size = ram_size }
      ∷ record { dev_base_addr = 0x60100000; addr_region_size = uart_size }
      ∷ record { dev_base_addr = 0x2000000; addr_region_size = clint_size }
      ∷ record { dev_base_addr = 0xc000000; addr_region_size = plic_size }
      ∷ [];
  mmio_devs = clint_dev ∷ plic_dev ∷ uart_dev ∷ ram_dev ∷ [];
  dev_find_cache = [];
}

map_devices-returns : map_devices ≡ some mapped_bus
unfolding map_devices register_dev m_emu.Bus.any_conflict m_emu.Bus.sorted_insert
    m_emu.Bus.is_addr_region_conflict m_emu.Bus.set_base m_emu.Bus.nth_dev
map_devices-returns = refl

linear-memory_map : (addr : ℕ) → linear mapped_bus addr ≡ memory_map addr
unfolding first_in_range is_addr_in_range m_emu.Bus.nth_dev
linear-memory_map addr = refl

no_cache : CacheIsValid mapped_bus
unfolding CacheIsValid find_key
no_cache addr h e = cc

addresses-memory_map : (addr : ℕ) → (find_dev_according_to_addr addr mapped_bus).1 ≡ memory_map addr
addresses-memory_map addr =
    (find_dev_according_to_addr-linear addr mapped_bus no_cache).0 ∙ linear-memory_map addr

new_core-Starts :
    (hart_id : ℕ) (raw : Rv64Core)
    → length raw.sv39_mmu.tlb ≡ 32
    → Starts (write_program_counter 0x80000000 (new_core hart_id raw)) (hart_id % 2 ^ 16) 0
unfolding new_core write_program_counter reset IsBlank get_field m_emu.Words.set_field find_key
new_core-Starts hart_id raw count = record {
  pc = refl;
  id = refl;
  argument = refl;
  blank = (refl, (refl, (refl, (refl, refl))));
  tlb = record {
    count = length-map raw.sv39_mmu.tlb _ ∙ count;
    next = omega arith;
    points = λ k i e. cc;
  };
}

new_core-GprIsValid :
    (hart_id : ℕ) (raw : Rv64Core)
    → GprIsValid (write_program_counter 0x80000000 (new_core hart_id raw))
unfolding new_core write_program_counter reset
new_core-GprIsValid hart_id raw = record { count = refl; x0 = refl }

new_core-IsLegal :
    (hart_id : ℕ) (raw : Rv64Core)
    → IsLegal (write_program_counter 0x80000000 (new_core hart_id raw))
unfolding new_core write_program_counter
new_core-IsLegal hart_id raw =
    let v = reset-IsLegal _ in
    record {
      mideleg = v.mideleg;
      medeleg = v.medeleg;
      mie = v.mie;
      mip = v.mip;
      mcounteren = v.mcounteren;
      scounteren = v.scounteren;
      mtvec = v.mtvec;
      stvec = v.stvec;
      satp_mode = v.satp_mode;
    }

-- Hart 1 with the argument of its boot loader in x10.
with_argument :
    (raw : Rv64Core)
    → length raw.sv39_mmu.tlb ≡ 32
    → (s : Rv64Core) × (set_gpr 10 1 (write_program_counter 0x80000000 (new_core 1 raw)) ≡ some s)
      × Starts s 1 1
      × GprIsValid s
      × IsLegal s
unfolding set_gpr IsBlank
with_argument raw count =
    let s = write_program_counter 0x80000000 (new_core 1 raw) in
    let v = new_core-Starts 1 raw count in
    let l = new_core-IsLegal 1 raw in
    let written = set_gpr_lem 10 10 1 s (new_core-GprIsValid 1 raw) refl in
    (
      record s { gpr = set s.gpr 10 1 },
      refl,
      record { pc = v.pc; id = v.id; argument = written.1; blank = v.blank; tlb = v.tlb },
      written.0,
      record {
        mideleg = l.mideleg;
        medeleg = l.medeleg;
        mie = l.mie;
        mip = l.mip;
        mcounteren = l.mcounteren;
        scounteren = l.scounteren;
        mtvec = l.mtvec;
        stvec = l.stvec;
        satp_mode = l.satp_mode;
      },
    )

abbrev both_harts : Attached
both_harts = record {
  int_status = some 0 ∷ some 1 ∷ replicate 8 none;
  core0_int_status = some 0;
  core1_int_status = some 1;
}

attach_harts-returns : attach_harts ≡ some both_harts
unfolding attach_harts attach_core_int_status
attach_harts-returns = refl

-- The constructor of the platform succeeds if the memory has its 4 GiB, the boot image fits it
-- and each hart has the 32 entries of its TLB, whatever the memory and the harts hold
-- otherwise. Both harts then are in a valid state at the start of the memory, with their
-- numbers as hart IDs, hart 1 with 1 in x10, and with valid TLBs; the memory begins with the
-- image; each address leads to the device of the memory map, or to none; and the lines of both
-- harts are attached to both controllers.
pub boot-Booted :
    (raw0 raw1 : Rv64Core) (memory image : List ℕ)
    → length raw0.sv39_mmu.tlb ≡ 32
    → length raw1.sv39_mmu.tlb ≡ 32
    → length memory ≡ ram_size
    → length image ≤ ram_size
    → (p : DefaultPlatform Shared) × (boot raw0 raw1 memory image ≡ some p) × Booted image p
unfolding boot assemble m_emu.Ram.create
boot-Booted raw0 raw1 memory image count0 count1 size fits =
    let (ram, written, reads) =
      read_buffer-write_buffer 0 image (m_emu.Ram.create memory) (omega arith) in
    let (core1, e1, starts1, gpr1, legal1) = with_argument raw1 count1 in
    (
      assemble (write_program_counter 0x80000000 (new_core 0 raw0)) core1 ram mapped_bus both_harts
          both_harts,
      rw (e1, written, map_devices-returns, attach_harts-returns) refl,
      record {
        valid = record {
          gpr0 = new_core-GprIsValid 0 raw0;
          gpr1 = gpr1;
          legal0 = new_core-IsLegal 0 raw0;
          legal1 = legal1;
          counter = omega arith;
        };
        hart0 = new_core-Starts 0 raw0 count0;
        hart1 = starts1;
        addresses = addresses-memory_map;
        loaded_image = reads;
        clint_core0 = refl;
        clint_core1 = refl;
        plic_core0 = refl;
        plic_core1 = refl;
      },
    )
